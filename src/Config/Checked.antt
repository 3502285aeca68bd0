-- ===== src/Config/Checked.antt =====
-- `Config::from_map` of src/config.rs: what it accepts, and why it refuses.
use mathlib.Core.Option.{some-injective, none-ne-some}
use yt_websub.Prelude.{
  ℕ, ◌≤◌, ◌<◌, true, false, none, some, [], ◌∷◌, ◌≡◌, ◌≢◌, ◌⊎◌, inl, inr, refl, ap, ◌∙◌, arith,
  Bytes, codes, ◌==◌, ◌=b◌, =b_sound, if◌then◌else◌, Bool-cases, Option-cases, length, or-cases,
  or-false, ltb→lt, not-ltb→le,
}
use yt_websub.Prelude.Maps.{Table, get, apart-ne}
use yt_websub.Text.Number.{max_u64, parse, parse-le}
use yt_websub.Text.Pieces.{starts_with, trim_end_matches}
use yt_websub.Config.{
  Config, ConfigError, Result, missing, weak_token, accepted, refused, required, is_weak, number_or,
  at_least_one, from_map, last_byte,
}

-- What every configuration that is accepted has.
pub record IsUsable (c : Config) : Type 0 where
  pub base_ends : last_byte c.callback_base ≢ some b'/'
  pub long_token : 32 ≤ length c.bearer_token
  pub own_token : starts_with (codes "CHANGE_ME") (c.bearer_token) ≡ false
  pub has_cert : c.tls_cert ≢ []
  pub has_key : c.tls_key ≢ []
  pub lease_fits : c.lease_seconds ≤ max_u64
  pub has_threads : 1 ≤ c.accept_threads

-- A key that is not there, or there without a value.
abbrev pub IsUnset : Table Bytes → Bytes → Type 0
IsUnset m key = (get key m ≡ none) ⊎ (get key m ≡ some [])

abbrev pub IsRequired : Bytes → Type 0
IsRequired key =
    (key ≡ codes "YTWEBSUB_CALLBACK_BASE")
    ⊎ (key ≡ codes "YTWEBSUB_BEARER_TOKEN")
    ⊎ (key ≡ codes "YTWEBSUB_TLS_CERT")
    ⊎ (key ≡ codes "YTWEBSUB_TLS_KEY")

-- A reason to refuse that is true of the map.
abbrev pub IsFault : Table Bytes → ConfigError → Type 0
IsFault m (missing key) = IsRequired key × IsUnset m key
IsFault m weak_token =
    (token : Bytes) × (get (codes "YTWEBSUB_BEARER_TOKEN") m ≡ some token)
    × ((starts_with (codes "CHANGE_ME") token ≡ true) ⊎ (length token < 32))

required-cases :
    (m : Table Bytes) (key : Bytes)
    → ((v : Bytes) × (get key m ≡ some v) × (v ≢ []) × (required m key ≡ accepted v))
      ⊎ (IsUnset m key × (required m key ≡ refused (missing key)))
unfolding required
required-cases m key = elim (Option-cases (get key m)) [
  | inl n ↦ inr (inl n, rw (required, n) refl)
  | inr (v, e) ↦ elim (Bool-cases (v =b [])) [
    | inl k ↦ inr (inr (e ∙ ap some (=b_sound v [] k)), rw (required, e, k) refl)
    | inr k ↦ inl (v, e, apart-ne v [] k, rw (required, e, k) refl)
  ]
]

is_weak-true :
    (token : Bytes)
    → is_weak token ≡ true
    → (starts_with (codes "CHANGE_ME") token ≡ true) ⊎ (length token < 32)
unfolding is_weak
is_weak-true token h = elim (or-cases _ _ h) [ inl e ↦ inl e | inr e ↦ inr (ltb→lt _ _ e) ]

is_weak-false :
    (token : Bytes)
    → is_weak token ≡ false
    → (starts_with (codes "CHANGE_ME") token ≡ false) × (32 ≤ length token)
unfolding is_weak
is_weak-false token h = let (a, b) = or-false _ _ h in (a, not-ltb→le _ _ b)

-- One byte more in front of what is left.
abbrev keep_front : ℕ → ℕ → Bytes → Bytes
keep_front c x [] = if x == c then [] else x ∷ []
keep_front c x (y ∷ r) = x ∷ y ∷ r

keep_front-last :
    (c x : ℕ) (t : Bytes) → last_byte t ≢ some c → last_byte (keep_front c x t) ≢ some c
keep_front-last c x [] h = elim (Bool-cases (x == c)) [
  | inl e ↦ rw e (λ k. none-ne-some c k)
  | inr e ↦ rw e (λ k. (let same = some-injective x c k in ground arith))
]
keep_front-last c x (y ∷ r) h = h

trim_end_matches-last : (c : ℕ) (s : Bytes) → last_byte (trim_end_matches c s) ≢ some c
unfolding trim_end_matches
trim_end_matches-last c [] h = none-ne-some c h
trim_end_matches-last c (x ∷ s) h =
    keep_front-last c x (trim_end_matches c s) (trim_end_matches-last c s) h

number_or-le : (m : Table Bytes) (key : Bytes) (d : ℕ) → d ≤ max_u64 → number_or m key d ≤ max_u64
unfolding number_or
number_or-le m key d h = elim (Option-cases (get key m)) [
  | inl n ↦ rw (number_or, n) h
  | inr (v, e) ↦ elim (Option-cases (parse max_u64 v)) [
    | inl n ↦ rw (number_or, e, n) h
    | inr (k, f) ↦ rw (number_or, e, f) (parse-le max_u64 k v f)
  ]
]

at_least_one-le : (d n : ℕ) → 1 ≤ d → 1 ≤ at_least_one d n
at_least_one-le d n h = ground arith

module _ (m : Table Bytes) where
  abbrev pub TellsTruth : Result Config → Type 0
  TellsTruth (accepted c) =
      IsUsable c × (get (codes "YTWEBSUB_BEARER_TOKEN") m ≡ some c.bearer_token)
  TellsTruth (refused e) = IsFault m e

  pub from_map-TellsTruth : TellsTruth (from_map m)
  unfolding from_map
  from_map-TellsTruth = elim (required-cases m (codes "YTWEBSUB_CALLBACK_BASE")) [
    | inr (u, e) ↦ rw (from_map, e) (inl refl, u)
    | inl (base, _, _, e) ↦ elim (required-cases m (codes "YTWEBSUB_BEARER_TOKEN")) [
      | inr (u, f) ↦ rw (from_map, e, f) (inr (inl refl), u)
      | inl (token, found, _, f) ↦ elim (Bool-cases (is_weak token)) [
        | inl k ↦ rw (from_map, e, f, k) (token, found, is_weak-true token k)
        | inr k ↦ elim (required-cases m (codes "YTWEBSUB_TLS_CERT")) [
          | inr (u, g) ↦ rw (from_map, e, f, k, g) (inr (inr (inl refl)), u)
          | inl (cert, _, has_cert, g) ↦ elim (required-cases m (codes "YTWEBSUB_TLS_KEY")) [
            | inr (u, h) ↦ rw (from_map, e, f, k, g, h) (inr (inr (inr refl)), u)
            | inl (key, _, has_key, h) ↦
                rw (from_map, e, f, k, g, h)
                  (
                    record {
                      base_ends = trim_end_matches-last b'/' base;
                      long_token = (is_weak-false token k).1;
                      own_token = (is_weak-false token k).0;
                      has_cert = has_cert;
                      has_key = has_key;
                      lease_fits =
                          number_or-le m (codes "YTWEBSUB_LEASE_SECONDS") 432000 (omega arith);
                      has_threads =
                          at_least_one-le 4 (number_or m (codes "YTWEBSUB_ACCEPT_THREADS") 4)
                            (omega arith);
                    },
                    found,
                  )
          ]
        ]
      ]
    ]
  ]
