-- ===== src/Resolve/Url.antt =====
-- `is_allowed_url` of src/resolve.rs: which URLs pass.
use mathlib.Core.Bool.{true≢false}
use mathlib.Core.Option.{some-injective, none-ne-some}
use yt_websub.Prelude.{
  ℕ, Bool, true, false, some, List, [], ◌∷◌, ◌++◌, append_assoc, map, ◌≡◌, ◌≢◌, ◌⊎◌, inl, inr, refl,
  sym, ap, ◌∙◌, subst, arith, Bytes, codes, ◌==◌, ◌=b◌, =b_sound, if◌then◌else◌, Bool-cases,
  Option-cases, All, any,
}
use yt_websub.Text.Pieces.{split, pieces, strip_prefix, trim_end_matches}
use yt_websub.Resolve.{
  allowed_hosts, ends_authority, authority_of, lower, before_colon, host_of, has_userinfo,
  is_allowed_authority, is_allowed_url,
}

-- Nothing, or a text that begins with such a byte.
abbrev pub BeginsBy : (ℕ → Bool) → Bytes → Type 0
BeginsBy test [] = Unit {0}
BeginsBy test (b ∷ s) = test b ≡ true

-- The parts of a URL of one of the hosts of YouTube over https: the host in any case of its letters,
-- perhaps dots and a port, and a path, query or fragment. No `@` stands before these.
pub record IsYoutube (url : Bytes) : Type 0 where
  pub host : Bytes
  pub dots : Bytes
  pub port : Bytes
  pub tail : Bytes
  pub is_url : url ≡ codes "https://" ++ (((host ++ dots) ++ port) ++ tail)
  pub only_dots : All (λ b. b ≡ b'.') dots
  pub is_port : BeginsBy (λ b. b == b':') port
  pub is_tail : BeginsBy ends_authority tail
  pub no_end : All (λ b. ends_authority b ≡ false) ((host ++ dots) ++ port)
  pub no_userinfo : All (λ b. b ≢ b'@') ((host ++ dots) ++ port)
  pub is_host :
      (map lower host ≡ codes "www.youtube.com")
      ⊎ ((map lower host ≡ codes "youtube.com") ⊎ (map lower host ≡ codes "m.youtube.com"))

-- What `authority_of` leaves.
abbrev tail_of : Bytes → Bytes
tail_of [] = []
tail_of (b ∷ s) = let more = tail_of s in if ends_authority b then b ∷ s else more

authority_of-tail : (s : Bytes) → s ≡ authority_of s ++ tail_of s
unfolding authority_of
authority_of-tail [] = refl
authority_of-tail (b ∷ s) = elim (Bool-cases (ends_authority b)) [
  | inl e ↦ rw e refl
  | inr e ↦ rw e (ap (λ (t : Bytes). b ∷ t) (authority_of-tail s))
]

tail_of-BeginsBy : (s : Bytes) → BeginsBy ends_authority (tail_of s)
tail_of-BeginsBy [] = tt
tail_of-BeginsBy (b ∷ s) = elim (Bool-cases (ends_authority b)) [
  | inl e ↦ rw e e
  | inr e ↦ rw e (tail_of-BeginsBy s)
]

authority_of-All : (s : Bytes) → All (λ b. ends_authority b ≡ false) (authority_of s)
unfolding authority_of
authority_of-All [] = tt
authority_of-All (b ∷ s) = elim (Bool-cases (ends_authority b)) [
  | inl e ↦ rw e tt
  | inr e ↦ rw e (e, authority_of-All s)
]

-- The parts at the first colon.
record AtColon (s first : Bytes) : Type 0 where
  port : Bytes
  parts : s ≡ first ++ port
  colon : BeginsBy (λ b. b == b':') port

pieces-AtColon :
    (cur s : Bytes)
    → (first : Bytes) × (more : List Bytes) × (pieces b':' cur s ≡ first ∷ more)
      × AtColon (cur ++ s) first
unfolding pieces
pieces-AtColon cur [] = (cur, [], refl, record { port = []; parts = refl; colon = tt })
pieces-AtColon cur (b ∷ s) = elim (Bool-cases (b == b':')) [
  | inl e ↦ rw e (cur, pieces b':' [] s, refl, record { port = b ∷ s; parts = refl; colon = e })
  | inr e ↦ rw e (
      let (first, more, h, at) = pieces-AtColon (cur ++ b ∷ []) s in
      (first, more, h, subst (λ (t : Bytes). AtColon t first) (append_assoc cur (b ∷ []) s) at))
]

before_colon-AtColon : (s : Bytes) → AtColon s (before_colon s)
unfolding before_colon split
before_colon-AtColon s =
    let (first, more, h, at) = pieces-AtColon [] s in rw (before_colon, split, h) at

-- What `trim_end_matches` takes away.
abbrev TrimmedOf : Bytes → Bytes → Type 0
TrimmedOf s r = (dots : Bytes) × (s ≡ r ++ dots) × All (λ b. b ≡ b'.') dots

trim_step :
    (b : ℕ) (r s : Bytes)
    → TrimmedOf s r
    → TrimmedOf (b ∷ s) (elim r [ [] ↦ if b == b'.' then [] else b ∷ [] | y ∷ t ↦ b ∷ y ∷ t ])
trim_step b [] s (dots, e, h) = elim (Bool-cases (b == b'.')) [
  | inl k ↦ rw k (b ∷ dots, ap (λ (t : Bytes). b ∷ t) e, (ground (arith, k), h))
  | inr k ↦ rw k (dots, ap (λ (t : Bytes). b ∷ t) e, h)
]
trim_step b (y ∷ t) s (dots, e, h) = (dots, ap (λ (t : Bytes). b ∷ t) e, h)

trim_end_matches-TrimmedOf : (s : Bytes) → TrimmedOf s (trim_end_matches b'.' s)
unfolding trim_end_matches
trim_end_matches-TrimmedOf [] = ([], refl, tt)
trim_end_matches-TrimmedOf (b ∷ s) =
    trim_step b (trim_end_matches b'.' s) s (trim_end_matches-TrimmedOf s)

has_userinfo-All : (s : Bytes) → has_userinfo s ≡ false → All (λ b. b ≢ b'@') s
unfolding any
has_userinfo-All [] h = tt
has_userinfo-All (b ∷ s) h = elim (Bool-cases (b == b'@')) [
  | inl e ↦ absurd (ground (arith, h, e))
  | inr e ↦ (ground (arith, e), has_userinfo-All s (ground (arith, h, e)))
]

allowed_cases :
    (h : Bytes)
    → any (λ a. a =b h) allowed_hosts ≡ true
    → (h ≡ codes "www.youtube.com") ⊎ ((h ≡ codes "youtube.com") ⊎ (h ≡ codes "m.youtube.com"))
unfolding any
allowed_cases h e = elim (Bool-cases (codes "www.youtube.com" =b h)) [
  | inl k ↦ inl (sym (=b_sound _ _ k))
  | inr n1 ↦ elim (Bool-cases (codes "youtube.com" =b h)) [
    | inl k ↦ inr (inl (sym (=b_sound _ _ k)))
    | inr n2 ↦ elim (Bool-cases (codes "m.youtube.com" =b h)) [
      | inl k ↦ inr (inr (sym (=b_sound _ _ k)))
      | inr n3 ↦ absurd (ground (arith, e, n1, n2, n3))
    ]
  ]
]

-- What an authority that passes is made of.
allowed_authority :
    (a : Bytes)
    → is_allowed_authority a ≡ true
    → (has_userinfo a ≡ false) × (any (λ h. h =b host_of a) allowed_hosts ≡ true)
unfolding is_allowed_authority
allowed_authority a h = elim (Bool-cases (has_userinfo a)) [
  | inl e ↦ absurd (true≢false (sym h ∙ rw (is_allowed_authority, e) refl))
  | inr e ↦ (e, sym (rw (is_allowed_authority, e) refl) ∙ h)
]

authority-IsYoutube :
    (rest : Bytes)
    → is_allowed_authority (authority_of rest) ≡ true
    → IsYoutube (codes "https://" ++ rest)
unfolding host_of
authority-IsYoutube rest h =
    let a = authority_of rest in
    let (plain, host) = allowed_authority a h in
    let colon = before_colon-AtColon a in
    let (dots, e, only) = trim_end_matches-TrimmedOf (before_colon a) in
    let whole : a ≡ (trim_end_matches b'.' (before_colon a) ++ dots) ++ colon.port =
      colon.parts ∙ ap (λ (t : Bytes). t ++ colon.port) e in
    record {
      host = trim_end_matches b'.' (before_colon a);
      dots = dots;
      port = colon.port;
      tail = tail_of rest;
      is_url =
          ap (λ (t : Bytes). codes "https://" ++ t)
            (authority_of-tail rest ∙ ap (λ (t : Bytes). t ++ tail_of rest) whole);
      only_dots = only;
      is_port = colon.colon;
      is_tail = tail_of-BeginsBy rest;
      no_end = subst (All (λ b. ends_authority b ≡ false)) whole (authority_of-All rest);
      no_userinfo = subst (All (λ b. b ≢ b'@')) whole (has_userinfo-All a plain);
      is_host = allowed_cases (host_of a) host;
    }

strip_prefix-some : (p s rest : Bytes) → strip_prefix p s ≡ some rest → s ≡ p ++ rest
unfolding strip_prefix
strip_prefix-some [] s rest h = some-injective _ _ h
strip_prefix-some (p ∷ ps) [] rest h = absurd (none-ne-some rest h)
strip_prefix-some (p ∷ ps) (c ∷ s) rest h = ground (arith, strip_prefix-some ps s rest)

pub is_allowed_url-IsYoutube : (url : Bytes) → is_allowed_url url ≡ true → IsYoutube url
unfolding is_allowed_url
is_allowed_url-IsYoutube url h = elim (Option-cases (strip_prefix (codes "https://") url)) [
  | inl n ↦ absurd (true≢false (sym h ∙ rw (is_allowed_url, n) refl))
  | inr (rest, e) ↦
      subst IsYoutube (sym (strip_prefix-some (codes "https://") url rest e))
        (authority-IsYoutube rest (sym (rw (is_allowed_url, e) refl) ∙ h))
]
