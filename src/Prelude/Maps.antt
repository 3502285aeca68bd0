-- ===== src/Prelude/Maps.antt =====
-- `HashMap` with text keys: the list of its entries, in the order in which it would give them out.
use mathlib.Core.Path.{◌≡◌, refl, sym, ap, ◌∙◌, subst}
use mathlib.Core.Logic.{◌≢◌, ◌⊎◌, inl, inr}
use mathlib.Core.Bool.{Bool, true, false, true≢false}
use mathlib.Core.Option.{Option, none, some, some-injective, none-ne-some}
use mathlib.Core.List.{List, [], ◌∷◌}
use native.Mathlib.Omega.{arith}
use yt_websub.Prelude.Tests.{if◌then◌else◌, Bool-cases}
use yt_websub.Prelude.Texts.{Bytes, ◌=b◌, =b_sound, =b_refl}

abbrev pub Table {ℓ} : Type ℓ → Type ℓ
Table V = List (Bytes × V)

-- `o.filter(keep)`
abbrev pub filtered {ℓ} : {V : Type ℓ} → (V → Bool) → Option V → Option V
filtered keep none = none
filtered keep (some v) = if keep v then some v else none

module _ {ℓ} {V : Type ℓ} where
  unfoldable pub get : Bytes → Table V → Option V
  get k [] = none
  get k ((j, v) ∷ m) = let rest = get k m in if j =b k then some v else rest

  unfoldable pub delete : Bytes → Table V → Table V
  delete k [] = []
  delete k ((j, v) ∷ m) = let rest = delete k m in if j =b k then rest else (j, v) ∷ rest

  -- `insert`, which takes the place of what the key had.
  unfoldable pub put : Bytes → V → Table V → Table V
  unfolding delete
  put k v m = (k, v) ∷ delete k m

  unfoldable pub retain : (V → Bool) → Table V → Table V
  retain keep [] = []
  retain keep ((j, v) ∷ m) = let rest = retain keep m in if keep v then (j, v) ∷ rest else rest

  -- No key twice.
  unfoldable pub IsMap : Table V → Type ℓ
  unfolding get
  IsMap [] = Unit
  IsMap ((j, v) ∷ m) = (get j m ≡ none) × IsMap m

pub =b_false : (j k : Bytes) → j ≢ k → j =b k ≡ false
=b_false j k apart = elim (Bool-cases (j =b k)) [
  | inl e ↦ absurd (apart (=b_sound j k e))
  | inr e ↦ e
]

=b_swap : (j k : Bytes) → j =b k ≡ false → k =b j ≡ false
=b_swap j k e =
    =b_false k j
      (λ h. absurd (true≢false (sym (subst (λ (t : Bytes). t =b k ≡ true) h (=b_refl k)) ∙ e)))

pub Key-cases : (j k : Bytes) → (j ≡ k) ⊎ ((j =b k ≡ false) × (k =b j ≡ false))
Key-cases j k = elim (Bool-cases (j =b k)) [
  | inl e ↦ inl (=b_sound j k e)
  | inr e ↦ inr (e, =b_swap j k e)
]

module _ {ℓ} {V : Type ℓ} where
  get-delete-same : (k : Bytes) (m : Table V) → get k (delete k m) ≡ none
  unfolding get delete
  get-delete-same k [] = refl
  get-delete-same k ((i, v) ∷ m) = elim (Bool-cases (i =b k)) [
    | inl e ↦ rw e (get-delete-same k m)
    | inr e ↦ rw (e, e) (get-delete-same k m)
  ]

  get-delete-apart : (j k : Bytes) (m : Table V) → k =b j ≡ false → get j (delete k m) ≡ get j m
  unfolding get delete
  get-delete-apart j k [] apart = refl
  get-delete-apart j k ((i, v) ∷ m) apart = elim (Key-cases i k) [
    | inl e ↦ rw (e, =b_refl k, apart) (get-delete-apart j k m apart)
    | inr (e, _) ↦ rw (e, get-delete-apart j k m apart) refl
  ]

  pub get-delete :
      (j k : Bytes) (m : Table V) → get j (delete k m) ≡ (if k =b j then none else get j m)
  get-delete j k m = elim (Key-cases k j) [
    | inl e ↦
        subst (λ (i : Bytes). get i (delete k m) ≡ (if k =b i then none else get i m)) e
          (rw (=b_refl k) (get-delete-same k m))
    | inr (e, _) ↦ rw e (get-delete-apart j k m e)
  ]

  pub get-put :
      (j k : Bytes) (v : V) (m : Table V) → get j (put k v m) ≡ (if k =b j then some v else get j m)
  unfolding get put
  get-put j k v m = elim (Bool-cases (k =b j)) [
    | inl e ↦ rw e refl
    | inr e ↦ rw (e, get-delete j k m, e) refl
  ]

  delete-absent : (j k : Bytes) (m : Table V) → get j m ≡ none → get j (delete k m) ≡ none
  delete-absent j k m h = elim (Bool-cases (k =b j)) [
    | inl e ↦ rw (get-delete j k m, e) refl
    | inr e ↦ rw (get-delete j k m, e) h
  ]

  pub delete-IsMap : (k : Bytes) (m : Table V) → IsMap m → IsMap (delete k m)
  unfolding delete IsMap
  delete-IsMap k [] h = h
  delete-IsMap k ((i, v) ∷ m) h = elim (Bool-cases (i =b k)) [
    | inl e ↦ rw e (delete-IsMap k m h.1)
    | inr e ↦ rw e ((delete-absent i k m h.0, delete-IsMap k m h.1))
  ]

  pub put-IsMap : (k : Bytes) (v : V) (m : Table V) → IsMap m → IsMap (put k v m)
  unfolding put IsMap
  put-IsMap k v m h = (get-delete-same k m, delete-IsMap k m h)

  retain-absent :
      (j : Bytes) (keep : V → Bool) (m : Table V) → get j m ≡ none → get j (retain keep m) ≡ none
  unfolding get retain
  retain-absent j keep [] h = h
  retain-absent j keep ((i, v) ∷ m) h = ground (arith, retain-absent j keep m)

  pub retain-IsMap : (keep : V → Bool) (m : Table V) → IsMap m → IsMap (retain keep m)
  unfolding retain IsMap
  retain-IsMap keep [] h = h
  retain-IsMap keep ((i, v) ∷ m) h = elim (Bool-cases (keep v)) [
    | inl e ↦ rw e ((retain-absent i keep m h.0, retain-IsMap keep m h.1))
    | inr e ↦ rw e (retain-IsMap keep m h.1)
  ]

  get-retain-first :
      (j : Bytes) (keep : V → Bool) (v : V) (m : Table V)
      → get j m ≡ none
      → get j (retain keep ((j, v) ∷ m)) ≡ filtered keep (get j ((j, v) ∷ m))
  unfolding get retain
  get-retain-first j keep v m h = elim (Bool-cases (keep v)) [
    | inl k ↦ rw (k, =b_refl j, k) refl
    | inr k ↦ rw (k, =b_refl j, k) (retain-absent j keep m h)
  ]

  pub get-retain :
      (j : Bytes) (keep : V → Bool) (m : Table V)
      → IsMap m
      → get j (retain keep m) ≡ filtered keep (get j m)
  unfolding get retain IsMap
  get-retain j keep [] h = refl
  get-retain j keep ((i, v) ∷ m) h = elim (Key-cases i j) [
    | inl e ↦
        subst (λ (t : Bytes). get t (retain keep ((i, v) ∷ m)) ≡ filtered keep (get t ((i, v) ∷ m)))
          e (get-retain-first i keep v m h.0)
    | inr (e, _) ↦ elim (Bool-cases (keep v)) [
      | inl k ↦ rw (k, e) (get-retain j keep m h.1)
      | inr k ↦ rw (k, e) (get-retain j keep m h.1)
    ]
  ]

-- The lookups of a changed map, read backwards.
pub apart-ne : (j k : Bytes) → j =b k ≡ false → j ≢ k
apart-ne j k e h = true≢false (sym (subst (λ (t : Bytes). j =b t ≡ true) h (=b_refl j)) ∙ e)

module _ {ℓ} {V : Type ℓ} where
  pub get-put-at : (k : Bytes) (v : V) (m : Table V) → get k (put k v m) ≡ some v
  get-put-at k v m = get-put k k v m ∙ rw (=b_refl k) refl

  pub get-put-off :
      (j k : Bytes) (v : V) (m : Table V) → k =b j ≡ false → get j (put k v m) ≡ get j m
  get-put-off j k v m e = get-put j k v m ∙ rw e refl

  pub get-put-inv :
      (j k : Bytes) (v w : V) (m : Table V)
      → get j (put k v m) ≡ some w
      → ((k ≡ j) × (v ≡ w)) ⊎ ((k =b j ≡ false) × (get j m ≡ some w))
  get-put-inv j k v w m h = elim (Key-cases k j) [
    | inl e ↦ inl (
      e,
      some-injective _ _ (sym (get-put-at k v m) ∙ (ap (λ (t : Bytes). get t (put k v m)) e ∙ h)),
    )
    | inr (e, _) ↦ inr (e, sym (get-put-off j k v m e) ∙ h)
  ]

  pub get-delete-off : (j k : Bytes) (m : Table V) → k =b j ≡ false → get j (delete k m) ≡ get j m
  get-delete-off j k m e = get-delete j k m ∙ rw e refl

  pub get-delete-inv :
      (j k : Bytes) (w : V) (m : Table V)
      → get j (delete k m) ≡ some w
      → (k =b j ≡ false) × (get j m ≡ some w)
  get-delete-inv j k w m h = elim (Bool-cases (k =b j)) [
    | inl e ↦ absurd (none-ne-some w (sym (get-delete j k m ∙ rw e refl) ∙ h))
    | inr e ↦ (e, sym (get-delete-off j k m e) ∙ h)
  ]
