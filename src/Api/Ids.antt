-- ===== src/Api/Ids.antt =====
-- Channel ids as entries of src/api.rs and of `desired_set` of src/renew.rs.
use yt_websub.Prelude.{
  ℕ, suc, ◌<◌, Bool, true, ◌||◌, Option, some, List, [], ◌∷◌, ◌≡◌, ◌≢◌, inl, inr, refl, sym, ap,
  ◌∙◌, arith, Bytes, ◌=b◌, =b_sound, Bool-cases, All, All-map, keep, keep-All, all, any, and-left,
  and-right, or-true, or-nil, or_assoc,
}
use yt_websub.Prelude.Maps.{Table}
use yt_websub.Text.Pieces.{Lacks}
use yt_websub.Text.Space.{IsGraphic, trim-IsGraphic}
use yt_websub.Resolve.{is_id_byte, is_channel_id, Fetch, resolve}
use yt_websub.Renew.Desired.{contains, push_new, Desired, add_found, resolve_all}
use yt_websub.Renew.Listed.{channel_id-IsGraphic, channel_id-nonempty, resolve-id, contains-append}
use yt_websub.Api.Body.{is_plain, is_safe_channel_entry}
use yt_websub.Api.Posted.{IsPosted, is_read}

abbrev pub IsId : Bytes → Type 0
IsId c = is_channel_id c ≡ true

abbrev IsIdByte : ℕ → Type 0
IsIdByte b = is_id_byte b ≡ true

all-IsIdByte : (s : Bytes) → all is_id_byte s ≡ true → All IsIdByte s
unfolding all
all-IsIdByte [] h = tt
all-IsIdByte (b ∷ s) h = (
  and-left (is_id_byte b) (all is_id_byte s) h,
  all-IsIdByte s (and-right (is_id_byte b) (all is_id_byte s) h),
)

id-IsIdByte : (c : Bytes) → IsId c → All IsIdByte c
unfolding is_channel_id
id-IsIdByte c h = all-IsIdByte c (and-right _ _ h)

id_byte-ne : (b : ℕ) → IsIdByte b → b ≢ b']'
id_byte-ne b h k = ground arith

id_byte-ascii : (b : ℕ) → IsIdByte b → b < 128
id_byte-ascii b h = ground arith

pub id-Lacks : (c : Bytes) → IsId c → Lacks b']' c
id-Lacks c h = All-map IsIdByte (λ b. b ≢ b']') id_byte-ne c (id-IsIdByte c h)

pub id-ascii : (c : Bytes) → IsId c → All (λ b. b < 128) c
id-ascii c h = All-map IsIdByte (λ b. b < 128) id_byte-ascii c (id-IsIdByte c h)

graphic_plain : (s : Bytes) → All IsGraphic s → all is_plain s ≡ true
unfolding all
graphic_plain [] h = refl
graphic_plain (b ∷ s) h = ground (arith, graphic_plain s (h.1))

pub id-IsPosted : (c : Bytes) → IsId c → IsPosted c
unfolding is_safe_channel_entry
id-IsPosted c h = record {
  safe = rw (channel_id-nonempty c h) (graphic_plain c (channel_id-IsGraphic c h));
  trimmed = trim-IsGraphic c (channel_id-IsGraphic c h);
}

no_comment : (c : Bytes) → All IsIdByte c → is_read c ≡ true
no_comment [] h = refl
no_comment (b ∷ c) h = (let here = h.0 in ground arith)

pub keep-ids : (cs : List Bytes) → All IsId cs → keep is_read cs ≡ cs
keep-ids cs h =
    keep-All is_read cs
      (All-map IsId (λ c. is_read c ≡ true) (λ c k. no_comment c (id-IsIdByte c k)) cs h)

contains-push_new_lem :
    (c uc : Bytes) (l : List Bytes) → contains c (push_new uc l) ≡ contains c l || uc =b c
contains-push_new_lem c uc l = elim (Bool-cases (contains uc l)) [
  | inr e ↦ rw e (contains-append c uc l)
  | inl e ↦ rw e (elim (Bool-cases (uc =b c)) [
    | inl k ↦
        ap (λ (x : Bytes). contains x l) (sym (=b_sound uc c k))
        ∙ e
        ∙ sym (ap (λ (b : Bool). contains c l || b) k ∙ or-true (contains c l))
    | inr k ↦ sym (ap (λ (b : Bool). contains c l || b) k ∙ or-nil (contains c l))
  ])
]

-- What an entry that was resolved adds.
add_found-some :
    (c uc : Bytes) (o : Option Bytes) (cache : Table Bytes) (d : Desired)
    → o ≡ some uc
    → ((add_found o cache d).complete ≡ d.complete)
      × (contains c ((add_found o cache d).channels) ≡ contains c (d.channels) || uc =b c)
unfolding add_found
add_found-some c uc o cache d e = rw e (refl, contains-push_new_lem c uc (d.channels))

-- Entries that are ids are all resolved, and they and no other are added.
pub resolve_all-ids :
    (fetch : ℕ → Fetch) (c : Bytes) (i : ℕ) (cs : List Bytes) (d : Desired)
    → All IsId cs
    → ((resolve_all fetch i cs d).complete ≡ d.complete)
      × (contains c ((resolve_all fetch i cs d).channels)
          ≡ contains c (d.channels) || contains c cs)
unfolding resolve_all contains any
resolve_all-ids fetch c i [] d h = (refl, sym (or-nil (contains c (d.channels))))
resolve_all-ids fetch c i (id ∷ cs) d h =
    let o = resolve (fetch i) id (d.cache) in
    let here =
      add_found-some c id (o.found) (o.cache) d (resolve-id (fetch i) id (d.cache) (h.0)) in
    let rest = resolve_all-ids fetch c (suc i) cs (add_found (o.found) (o.cache) d) (h.1) in
    (
      rest.0 ∙ here.0,
      rest.1
          ∙ (ap (λ (b : Bool). b || contains c cs) (here.1)
              ∙ sym (or_assoc (contains c (d.channels)) (id =b c) (contains c cs))),
    )
