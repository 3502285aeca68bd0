-- ===== src/Store/Keys.antt =====
-- The set of keys by which `append` of src/store.rs suppresses duplicates.
use yt_websub.Prelude.{
  Bool, true, false, not, ◌||◌, ◌&&◌, List, [], ◌∷◌, ◌++◌, map, foldl, ◌≡◌, refl, ◌∙◌, arith, Bytes,
  ◌=b◌, =b_iff, any, keep, Bool-cases, inl, inr, if◌then◌else◌,
}
use yt_websub.Store.Line.{Event}
use yt_websub.Store.{contains, insert_key, remove_key, key_of}

contains-cons : (set : List Bytes) (k j : Bytes) → contains (k ∷ set) j ≡ (k =b j || contains set j)
unfolding contains any
contains-cons set k j = refl

insert_key-cases :
    (set : List Bytes) (k : Bytes) → insert_key set k ≡ (if contains set k then set else k ∷ set)
unfolding insert_key
insert_key-cases set k = refl

pub contains-insert_key :
    (set : List Bytes) (k j : Bytes) → contains (insert_key set k) j ≡ (k =b j || contains set j)
contains-insert_key set k j = elim (Bool-cases (contains set k)) [
  | inl old ↦ rw (insert_key-cases, old) (ground (arith, =b_iff k j))
  | inr new ↦ rw (insert_key-cases, new) (contains-cons set k j)
]

pub contains-remove_key :
    (set : List Bytes) (k j : Bytes)
    → contains (remove_key set k) j ≡ (not (k =b j) && contains set j)
unfolding contains remove_key any keep
contains-remove_key [] k j = ground arith
contains-remove_key (i ∷ set) k j =
    ground (arith, contains-remove_key set k j, =b_iff i k, =b_iff i j, =b_iff k j)

-- Whether an event of the list has this key.
abbrev pub has_key : List Event → Bytes → Bool
has_key es k = any (λ e. key_of e =b k) es

pub has_key-append :
    (es fs : List Event) (k : Bytes) → has_key (es ++ fs) k ≡ (has_key es k || has_key fs k)
unfolding any
has_key-append [] fs k = refl
has_key-append (e ∷ es) fs k = ground (arith, has_key-append es fs k)

pub has_key-keep :
    (p : Event → Bool) (es : List Event) (k : Bytes)
    → has_key (keep p es) k ≡ true
    → has_key es k ≡ true
unfolding any keep
has_key-keep p [] k h = h
has_key-keep p (e ∷ es) k h = ground (arith, has_key-keep p es k)

-- No two events have the same key.
abbrev pub Distinct : List Event → Type 0
Distinct [] = Unit
Distinct (e ∷ es) = (has_key es (key_of e) ≡ false) × Distinct es

pub Distinct-append_right : (es fs : List Event) → Distinct (es ++ fs) → Distinct fs
Distinct-append_right [] fs h = h
Distinct-append_right (e ∷ es) fs h = Distinct-append_right es fs h.1

pub Distinct-concat :
    (es : List Event) (e : Event)
    → Distinct es
    → has_key es (key_of e) ≡ false
    → Distinct (es ++ e ∷ [])
unfolding any
Distinct-concat [] e d h = (refl, tt)
Distinct-concat (x ∷ es) e (dx, d) h = (
  has_key-append es (e ∷ []) (key_of x)
      ∙ ground (arith, =b_iff (key_of e) (key_of x), =b_iff (key_of x) (key_of e)),
  Distinct-concat es e d (ground arith),
)

contains-foldl :
    (es : List Event) (set : List Bytes) (k : Bytes)
    → contains (foldl insert_key set (map key_of es)) k ≡ (contains set k || has_key es k)
unfolding any
contains-foldl [] set k = ground arith
contains-foldl (e ∷ es) set k =
    contains-foldl es (insert_key set (key_of e)) k
    ∙ ground (arith, contains-insert_key set (key_of e) k)

contains-nil : (k : Bytes) → contains [] k ≡ false
unfolding contains any
contains-nil k = refl

-- The set that `open` builds has the keys of the window.
pub contains-load :
    (es : List Event) (k : Bytes) → contains (foldl insert_key [] (map key_of es)) k ≡ has_key es k
contains-load es k = contains-foldl es [] k ∙ ground (arith, contains-nil k)
