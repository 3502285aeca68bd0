-- ===== src/Config/EnvFile.antt =====
-- Where `Config::load` of src/config.rs finds a key: the environment wins over the file, and the last
-- line over the lines before it.
use mathlib.Core.Bool.{true≢false}
use yt_websub.Prelude.{
  true, Option, none, some, List, [], ◌∷◌, ◌≡◌, inl, inr, refl, sym, ap, ◌∙◌, Bytes, codes, ◌=b◌,
  if◌then◌else◌, Bool-cases,
}
use yt_websub.Prelude.Maps.{Table, get, put, Key-cases, get-put}
use yt_websub.Text.Pieces.{starts_with}
use yt_websub.Text.Utf8.{is_utf8}
use yt_websub.Config.{parse_env_file, overlay, own_vars, config_map}

-- The value that the first option has, or else the second.
abbrev pub or_else : Option Bytes → Option Bytes → Option Bytes
or_else none o = o
or_else (some v) o = some v

-- The value of a key at its last pair.
unfoldable pub last_of : Bytes → List (Bytes × Bytes) → Option Bytes
last_of k [] = none
last_of k ((j, v) ∷ more) =
    let rest = last_of k more in or_else rest (if j =b k then some v else none)

-- What the file gives for a key; one that cannot be read, or is not UTF-8, gives nothing.
unfoldable pub in_file : Bytes → Option Bytes → Option Bytes
unfolding last_of parse_env_file is_utf8
in_file k none = none
in_file k (some content) = if is_utf8 content then last_of k (parse_env_file content) else none

or_else_assoc : (a b c : Option Bytes) → or_else a (or_else b c) ≡ or_else (or_else a b) c
or_else_assoc none b c = refl
or_else_assoc (some v) b c = refl

or_else-none : (a : Option Bytes) → or_else a none ≡ a
or_else-none none = refl
or_else-none (some v) = refl

get-put_lem :
    (k j v : Bytes) (m : Table Bytes)
    → get k (put j v m) ≡ or_else (if j =b k then some v else none) (get k m)
get-put_lem k j v m = elim (Bool-cases (j =b k)) [
  | inl e ↦ get-put k j v m ∙ rw e refl
  | inr e ↦ get-put k j v m ∙ rw e refl
]

get-overlay :
    (k : Bytes) (m : Table Bytes) (pairs : List (Bytes × Bytes))
    → get k (overlay m pairs) ≡ or_else (last_of k pairs) (get k m)
unfolding overlay last_of
get-overlay k m [] = refl
get-overlay k m ((j, v) ∷ more) =
    get-overlay k (put j v m) more
    ∙ ap (or_else (last_of k more)) (get-put_lem k j v m)
    ∙ or_else_assoc (last_of k more) (if j =b k then some v else none) (get k m)

last_of-own_vars :
    (k : Bytes) (vars : List (Bytes × Bytes))
    → starts_with (codes "YTWEBSUB_") k ≡ true
    → last_of k (own_vars vars) ≡ last_of k vars
unfolding last_of own_vars
last_of-own_vars k [] own = refl
last_of-own_vars k ((j, v) ∷ more) own = elim (Bool-cases (starts_with (codes "YTWEBSUB_") j)) [
  | inl e ↦ rw (e, last_of-own_vars k more own) refl
  | inr e ↦ elim (Key-cases j k) [
    | inl same ↦
        absurd (true≢false (sym own ∙ (ap (starts_with (codes "YTWEBSUB_")) (sym same) ∙ e)))
    | inr (apart, _) ↦
        rw (e, apart) (last_of-own_vars k more own ∙ sym (or_else-none (last_of k more)))
  ]
]

get-overlay-own_vars :
    (k : Bytes) (m : Table Bytes) (vars : List (Bytes × Bytes))
    → starts_with (codes "YTWEBSUB_") k ≡ true
    → get k (overlay m (own_vars vars)) ≡ or_else (last_of k vars) (get k m)
get-overlay-own_vars k m vars own =
    get-overlay k m (own_vars vars)
    ∙ ap (λ (o : Option Bytes). or_else o (get k m)) (last_of-own_vars k vars own)

nothing_in : (k : Bytes) → get {V = Bytes} k [] ≡ none
unfolding get
nothing_in k = refl

-- A key of the program's has the value of the environment if it is there, or else that of its last
-- line in the file.
pub config_map-get :
    (k : Bytes) (file : Option Bytes) (vars : List (Bytes × Bytes))
    → starts_with (codes "YTWEBSUB_") k ≡ true
    → get k (config_map file vars) ≡ or_else (last_of k vars) (in_file k file)
unfolding config_map in_file
config_map-get k none vars own =
    get-overlay-own_vars k [] vars own ∙ ap (or_else (last_of k vars)) (nothing_in k)
config_map-get k (some content) vars own = elim (Bool-cases (is_utf8 content)) [
  | inl e ↦ rw e (
      get-overlay-own_vars k (overlay [] (parse_env_file content)) vars own
      ∙ ap (or_else (last_of k vars)) (
          get-overlay k [] (parse_env_file content)
          ∙ (ap (or_else (last_of k (parse_env_file content))) (nothing_in k)
              ∙ or_else-none (last_of k (parse_env_file content)))))
  | inr e ↦ rw e (get-overlay-own_vars k [] vars own ∙ ap (or_else (last_of k vars)) (nothing_in k))
]
