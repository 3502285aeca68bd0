-- ===== src/Text/Find.antt =====
-- `str::find` of a text in a text.
use mathlib.Core.Option
use mathlib.Core.Option.{some-injective, none-ne-some}
use yt_websub.Prelude.{
  ℕ, suc, true, Option, none, some, [], ◌∷◌, ◌≡◌, ◌⊎◌, inl, inr, refl, sym, ◌∙◌, Bytes, codes,
  if◌then◌else◌, Bool-cases,
}
use yt_websub.Text.Pieces.{starts_with}

-- The position of the first occurrence.
unfoldable pub find : Bytes → Bytes → Option ℕ
unfolding starts_with
find p [] = if starts_with p [] then some 0 else none
find p (c ∷ s) =
    let later = Option.map suc (find p s) in if starts_with p (c ∷ s) then some 0 else later

map-suc-inv :
    (o : Option ℕ) (i : ℕ) → Option.map suc o ≡ some i → (j : ℕ) × (o ≡ some j) × (i ≡ suc j)
map-suc-inv none i h = absurd (none-ne-some i h)
map-suc-inv (some j) i h = (j, refl, sym (some-injective (suc j) i h))

-- The text begins with an occurrence, or it is further on.
pub find-inv :
    (p : Bytes) (c : ℕ) (s : Bytes) (i : ℕ)
    → find p (c ∷ s) ≡ some i
    → ((starts_with p (c ∷ s) ≡ true) × (i ≡ 0)) ⊎ ((j : ℕ) × (find p s ≡ some j) × (i ≡ suc j))
unfolding find
find-inv p c s i h = elim (Bool-cases (starts_with p (c ∷ s))) [
  | inl e ↦ inl (e, sym (some-injective 0 i ((sym (rw (find, e) refl)) ∙ h)))
  | inr e ↦ inr (map-suc-inv (find p s) i ((sym (rw (find, e) refl)) ∙ h))
]

find_test : find (codes "ab") (codes "xaab") ≡ some 2
unfolding find
find_test = refl
