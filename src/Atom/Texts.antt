-- ===== src/Atom/Texts.antt =====
-- The texts of the entries that src/atom.rs reads from a notification in UTF-8 are UTF-8: a `String`
-- is cut at ASCII, trimmed of white space, and has its entities replaced.
use mathlib.Core.Option
use mathlib.Core.Option.{some-injective, none-ne-some}
use yt_websub.Prelude.{
  ℕ, suc, ◌+◌, ◌-◌, ◌<◌, true, false, Option, none, some, [], ◌∷◌, ◌++◌, ◌≡◌, inl, inr, refl, sym,
  ap, subst, and-left, and-right, arith, Bytes, codes, >>=-eq-some, Bool-cases, length, take, drop,
  get_or, All-append, all, ltb, ltb→lt,
}
use yt_websub.Text.Utf8.{
  Utf8State, start, valid_from, valid_from_step, is_utf8, is_utf8-append, is_utf8-ascii,
}
use yt_websub.Text.Find.{find}
use yt_websub.Text.Pieces.{starts_with}
use yt_websub.Text.Cut.{
  IsAscii, valid_from_cons, valid_from-ascii, starts_with-cons, take-find, drop-find,
}
use yt_websub.Atom.{or_else, between, tag, replace_from, decode_entities}

abbrev pub IsUtf8 : Bytes → Type 0
IsUtf8 s = is_utf8 s ≡ true

module _ (p : ℕ) (ps r : Bytes) (small : IsAscii (p ∷ ps)) (good : IsUtf8 r) where
  miss :
      (c : ℕ) (s : Bytes)
      → starts_with (p ∷ ps) (c ∷ s) ≡ false
      → replace_from 0 (p ∷ ps) r (c ∷ s) ≡ c ∷ replace_from 0 (p ∷ ps) r s
  unfolding replace_from
  miss c s e = rw (replace_from, e) refl

  hit :
      (c : ℕ) (s : Bytes)
      → starts_with (p ∷ ps) (c ∷ s) ≡ true
      → replace_from 0 (p ∷ ps) r (c ∷ s) ≡ r ++ replace_from (length ps) (p ∷ ps) r s
  unfolding replace_from
  hit c s e =
      let last : suc (length ps) - 1 ≡ length ps = omega arith in
      rw (replace_from, e) (ap (λ (n : ℕ). r ++ replace_from n (p ∷ ps) r s) last)

  -- `q` is what is still to come of an occurrence.
  replace_from-valid :
      (st : Utf8State) (q s : Bytes)
      → IsAscii q
      → starts_with q s ≡ true
      → valid_from st s ≡ true
      → valid_from st (replace_from (length q) (p ∷ ps) r s) ≡ true
  unfolding replace_from starts_with is_utf8
  replace_from-valid st [] [] ascii begins h = h
  replace_from-valid st (d ∷ q) [] ascii begins h = h
  replace_from-valid st (d ∷ q) (c ∷ s) (tiny, ascii) begins h =
      let (same, begins') = starts_with-cons d c q s begins in
      let (at, h') = valid_from-ascii st c s (omega arith) h in
      subst (λ (x : Utf8State). valid_from x (replace_from (length q) (p ∷ ps) r s) ≡ true) (sym at)
        (replace_from-valid start q s ascii begins' h')
  replace_from-valid st [] (c ∷ s) ascii begins h =
      elim (Bool-cases (starts_with (p ∷ ps) (c ∷ s))) [
        | inl e ↦
            (let (same, begins') = starts_with-cons p c ps s e in
              let (at, h') = valid_from-ascii st c s (omega arith) h in
              subst (λ (t : Bytes). valid_from st t ≡ true) (sym (hit c s e))
                (subst
                  (λ (x : Utf8State).
                    valid_from x (r ++ replace_from (length ps) (p ∷ ps) r s) ≡ true)
                  (sym at)
                  (is_utf8-append r (replace_from (length ps) (p ∷ ps) r s) good
                    (replace_from-valid start ps s (small.1) begins' h'))))
        | inr e ↦
            (let (st', step, h') = valid_from_step st s c h in
              subst (λ (t : Bytes). valid_from st t ≡ true) (sym (miss c s e))
                (valid_from_cons st st' c (replace_from 0 (p ∷ ps) r s) step
                  (replace_from-valid st' [] s tt refl h')))
      ]

  replace_from-IsUtf8 : (s : Bytes) → IsUtf8 s → IsUtf8 (replace_from 0 (p ∷ ps) r s)
  unfolding is_utf8
  replace_from-IsUtf8 s h = replace_from-valid start [] s tt (unfold starts_with in refl) h

-- Of an option, if it has a text.
abbrev pub GivesUtf8 : Option Bytes → Type 0
GivesUtf8 o = (t : Bytes) → o ≡ some t → IsUtf8 t

some-GivesUtf8 : (t : Bytes) → IsUtf8 t → GivesUtf8 (some t)
some-GivesUtf8 t h u e = subst IsUtf8 (some-injective t u e) h

pub or_else-GivesUtf8 : (a b : Option Bytes) → GivesUtf8 a → GivesUtf8 b → GivesUtf8 (or_else a b)
or_else-GivesUtf8 none b ha hb = hb
or_else-GivesUtf8 (some x) b ha hb = ha

pub map-GivesUtf8 :
    (f : Bytes → Bytes) (o : Option Bytes)
    → ((t : Bytes) → IsUtf8 t → IsUtf8 (f t))
    → GivesUtf8 o
    → GivesUtf8 (Option.map f o)
map-GivesUtf8 f none keeps h = λ t e. absurd (none-ne-some t e)
map-GivesUtf8 f (some t) keeps h = some-GivesUtf8 (f t) (keeps t (h t refl))

pub get_or-IsUtf8 : (o : Option Bytes) → GivesUtf8 o → IsUtf8 (get_or o [])
get_or-IsUtf8 none h = unfold is_utf8 in unfold valid_from in refl
get_or-IsUtf8 (some t) h = h t refl

between-GivesUtf8 :
    (s : Bytes) (p q : ℕ) (ps qs : Bytes)
    → IsAscii (p ∷ ps)
    → IsAscii (q ∷ qs)
    → IsUtf8 s
    → GivesUtf8 (between s (p ∷ ps) (q ∷ qs))
unfolding between
between-GivesUtf8 s p q ps qs from to valid t h =
    let (i, e, k) = >>=-eq-some (find (p ∷ ps) s) _ h in
    let rest = drop (i + length (p ∷ ps)) s in
    let (j, e', k') = >>=-eq-some (find (q ∷ qs) rest) _ k in
    subst IsUtf8 (some-injective (take j rest) t k')
      (take-find q qs rest j to e' (drop-find p ps s i from e valid))

pub all-IsAscii : (s : Bytes) → all (λ c. ltb c 128) s ≡ true → IsAscii s
unfolding all
all-IsAscii [] h = tt
all-IsAscii (c ∷ s) h = (ltb→lt c 128 (and-left _ _ h), all-IsAscii s (and-right _ _ h))

pub tag-GivesUtf8 : (s name : Bytes) → IsAscii name → IsUtf8 s → GivesUtf8 (tag s name)
unfolding tag all
tag-GivesUtf8 s name small valid =
    let closed = All-append (λ c. c < 128) name (codes ">") small (all-IsAscii (codes ">") refl) in
    or_else-GivesUtf8
      (between s (codes "<yt:" ++ name ++ codes ">") (codes "</yt:" ++ name ++ codes ">"))
      (between s (codes "<" ++ name ++ codes ">") (codes "</" ++ name ++ codes ">"))
      (between-GivesUtf8 s b'<' b'<' (codes "yt:" ++ name ++ codes ">")
        (codes "/yt:" ++ name ++ codes ">")
        (All-append (λ c. c < 128) (codes "<yt:") (name ++ codes ">")
          (all-IsAscii (codes "<yt:") refl) closed)
        (All-append (λ c. c < 128) (codes "</yt:") (name ++ codes ">")
          (all-IsAscii (codes "</yt:") refl) closed)
        valid)
      (between-GivesUtf8 s b'<' b'<' (name ++ codes ">") (codes "/" ++ name ++ codes ">")
        (All-append (λ c. c < 128) (codes "<") (name ++ codes ">") (all-IsAscii (codes "<") refl)
          closed)
        (All-append (λ c. c < 128) (codes "</") (name ++ codes ">") (all-IsAscii (codes "</") refl)
          closed)
        valid)

pub decode_entities-IsUtf8 : (s : Bytes) → IsUtf8 s → IsUtf8 (decode_entities s)
unfolding decode_entities all
decode_entities-IsUtf8 s h = replaced (codes "amp;") (codes "&") refl refl _ (
    replaced (codes "apos;") (codes "'") refl refl _ (
      replaced (codes "#39;") (codes "'") refl refl _ (
        replaced (codes "quot;") (codes "\"") refl refl _ (
          replaced (codes "gt;") (codes ">") refl refl _
            (replaced (codes "lt;") (codes "<") refl refl s h)))))
  where
    replaced :
        (ps r : Bytes)
        → all (λ c. ltb c 128) ps ≡ true
        → all (λ c. ltb c 128) r ≡ true
        → (s : Bytes) → IsUtf8 s
        → IsUtf8 (replace_from 0 (b'&' ∷ ps) r s)
    replaced ps r small plain =
        replace_from-IsUtf8 b'&' ps r (omega arith, all-IsAscii ps small)
          (is_utf8-ascii r (all-IsAscii r plain))
