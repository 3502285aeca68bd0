-- ===== src/Text/Lines.antt =====
-- The lines of a text: none holds a newline, and those of UTF-8 are UTF-8.
use yt_websub.Prelude.{
  ℕ, ◌<◌, true, false, List, [], ◌∷◌, ◌++◌, append_assoc, append-nil, ◌≡◌, ◌≢◌, inl, inr, refl, sym,
  ap, ◌∙◌, subst, arith, Bytes, ◌==◌, Bool-cases, All, All-append,
}
use yt_websub.Text.Pieces.{Lacks, chomp, lines_from, lines, lines-append}
use yt_websub.Text.Utf8.{
  Utf8State, at_start, start, next-ascii, valid_from_step, valid_from, is_utf8, is_utf8-append,
  is_utf8-cons,
}

chomp-Lacks_kept : (b : ℕ) (s : Bytes) → Lacks b s → Lacks b (chomp s)
unfolding chomp
chomp-Lacks_kept b [] h = tt
chomp-Lacks_kept b (x ∷ []) h = elim (Bool-cases (x == b'\r')) [ inl e ↦ rw e tt | inr e ↦ rw e h ]
chomp-Lacks_kept b (x ∷ y ∷ s) h = (h.0, chomp-Lacks_kept b (y ∷ s) h.1)

not-same : (c d : ℕ) → c == d ≡ false → c ≢ d
not-same c d e k = ground arith

lines_from-Lacks : (cur s : Bytes) → Lacks b'\n' cur → All (Lacks b'\n') (lines_from cur s)
unfolding lines_from
lines_from-Lacks [] [] h = tt
lines_from-Lacks (x ∷ cur) [] h = (h, tt)
lines_from-Lacks cur (c ∷ s) h = elim (Bool-cases (c == b'\n')) [
  | inl e ↦ rw e ((chomp-Lacks_kept b'\n' cur h, lines_from-Lacks [] s tt))
  | inr e ↦
      rw e
        (lines_from-Lacks (cur ++ c ∷ []) s (All-append _ cur (c ∷ []) h (not-same c b'\n' e, tt)))
]

pub lines-Lacks : (s : Bytes) → All (Lacks b'\n') (lines s)
unfolding lines
lines-Lacks s = lines_from-Lacks [] s tt

-- What can stand on a line.
abbrev pub IsLine : Bytes → Type 0
IsLine s = Lacks b'\n' s × Lacks b'\r' s

-- Lines, each with its end.
unfoldable pub rows : List Bytes → Bytes
rows [] = []
rows (line ∷ more) = line ++ b'\n' ∷ rows more

pub lines-rows :
    (ls : List Bytes) (rest : Bytes) → All IsLine ls → lines (rows ls ++ rest) ≡ ls ++ lines rest
unfolding rows
lines-rows [] rest h = refl
lines-rows (l ∷ ls) rest h =
    ap lines (append_assoc l (b'\n' ∷ rows ls) rest)
    ∙ lines-append l (rows ls ++ rest) (h.0.0) (h.0.1)
    ∙ ap (λ (t : List Bytes). l ∷ t) (lines-rows ls rest (h.1))

valid_from-split :
    (st : Utf8State) (p : Bytes) (c : ℕ) (s : Bytes)
    → c < 128
    → valid_from st (p ++ c ∷ s) ≡ true
    → (valid_from st p ≡ true) × (is_utf8 s ≡ true)
unfolding valid_from is_utf8
valid_from-split st [] c s small h =
    let (st', e, h') = valid_from_step st s c h in
    let (here, there) = next-ascii st st' c small e in
    (ap at_start here, subst (λ (x : Utf8State). valid_from x s ≡ true) there h')
valid_from-split st (b ∷ p) c s small h =
    let (st', e, h') = valid_from_step st (p ++ c ∷ s) b h in
    let (first, second) = valid_from-split st' p c s small h' in (rw (valid_from, e) first, second)

chomp-valid_from :
    (st : Utf8State) (s : Bytes) → valid_from st s ≡ true → valid_from st (chomp s) ≡ true
unfolding valid_from chomp
chomp-valid_from st [] h = h
chomp-valid_from st (x ∷ []) h = elim (Bool-cases (x == b'\r')) [
  | inl e ↦ rw e ((valid_from-split st [] x [] (ground arith) h).0)
  | inr e ↦ rw e h
]
chomp-valid_from st (x ∷ y ∷ s) h =
    let (st', e, h') = valid_from_step st (y ∷ s) x h in
    rw (valid_from, e) (chomp-valid_from st' (y ∷ s) h')

abbrev pub IsUtf8 : Bytes → Type 0
IsUtf8 s = is_utf8 s ≡ true

lines_from-IsUtf8 : (cur s : Bytes) → is_utf8 (cur ++ s) ≡ true → All IsUtf8 (lines_from cur s)
unfolding lines_from is_utf8
lines_from-IsUtf8 [] [] h = tt
lines_from-IsUtf8 (x ∷ cur) [] h =
    (subst (λ (t : Bytes). is_utf8 t ≡ true) (append-nil (x ∷ cur)) h, tt)
lines_from-IsUtf8 cur (c ∷ s) h = elim (Bool-cases (c == b'\n')) [
  | inl e ↦
      (let (first, more) = valid_from-split start cur c s (ground arith) h in
        rw e ((chomp-valid_from start cur first, lines_from-IsUtf8 [] s more)))
  | inr e ↦ rw e (
      lines_from-IsUtf8 (cur ++ c ∷ []) s
        (subst (λ (t : Bytes). is_utf8 t ≡ true) (sym (append_assoc cur (c ∷ []) s)) h))
]

pub lines-IsUtf8 : (s : Bytes) → is_utf8 s ≡ true → All IsUtf8 (lines s)
unfolding lines
lines-IsUtf8 s h = lines_from-IsUtf8 [] s h

pub rows_utf8 : (ls : List Bytes) → All IsUtf8 ls → is_utf8 (rows ls) ≡ true
unfolding rows is_utf8 valid_from
rows_utf8 [] h = refl
rows_utf8 (l ∷ ls) h =
    is_utf8-append l (b'\n' ∷ rows ls) (h.0)
      (is_utf8-cons b'\n' (rows ls) (omega arith) (rows_utf8 ls (h.1)))
