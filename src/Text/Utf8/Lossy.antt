-- ===== src/Text/Utf8/Lossy.antt =====
-- `String::from_utf8_lossy` gives UTF-8, whatever the bytes.
use yt_websub.Prelude.{
  ℕ, true, some, [], ◌∷◌, ◌++◌, append-nil, append_assoc, ◌≡◌, refl, sym, ap, ◌∙◌, Bytes,
  Option-cases, inl, inr,
}
use yt_websub.Text.Utf8.{
  Utf8State, start, next, valid_from, is_utf8, replacement, done, waiting, broken, lossy_from,
  from_utf8_lossy, is_utf8-append, within,
}

-- The bytes that wait are those that lead to where the decoder stands.
Leads : Utf8State → Bytes → Type 0
Leads st q = (t : Bytes) → is_utf8 (q ++ t) ≡ valid_from st t

replacement-IsUtf8 : is_utf8 replacement ≡ true
unfolding is_utf8 valid_from next within
replacement-IsUtf8 = refl

broken-IsUtf8 : (st : Utf8State) → is_utf8 (broken st) ≡ true
unfolding is_utf8 valid_from next within
broken-IsUtf8 start = refl
broken-IsUtf8 _ = refl

starts-Leads : Leads start []
unfolding Leads is_utf8
starts-Leads t = refl

step-Leads :
    (st st' : Utf8State) (q : Bytes) (b : ℕ)
    → next st b ≡ some st'
    → Leads st q
    → Leads st' (q ++ b ∷ [])
unfolding Leads valid_from
step-Leads st st' q b e h t =
    ap is_utf8 (append_assoc q (b ∷ []) t) ∙ (h (b ∷ t) ∙ rw (e, valid_from) refl)

waiting-Leads : (st : Utf8State) (q : Bytes) → Leads st q → Leads st (waiting st q)
waiting-Leads start q h = starts-Leads
waiting-Leads _ q h = h

done-IsUtf8 : (st : Utf8State) (q : Bytes) → Leads st q → is_utf8 (done st q) ≡ true
unfolding Leads is_utf8 valid_from
done-IsUtf8 start q h = ap (valid_from start) (sym (append-nil q)) ∙ h []
done-IsUtf8 _ q h = refl

lossy_from-IsUtf8 : (st : Utf8State) (q s : Bytes) → Leads st q → is_utf8 (lossy_from st q s) ≡ true
unfolding lossy_from
lossy_from-IsUtf8 st q [] h = broken-IsUtf8 st
lossy_from-IsUtf8 st q (b ∷ s) h = elim (Option-cases (next st b)) [
  | inr (st', e) ↦
      (let on = step-Leads st st' q b e h in
        rw (lossy_from, e)
          (is_utf8-append (done st' (q ++ b ∷ [])) (lossy_from st' (waiting st' (q ++ b ∷ [])) s)
            (done-IsUtf8 st' (q ++ b ∷ []) on)
            (lossy_from-IsUtf8 st' (waiting st' (q ++ b ∷ [])) s
              (waiting-Leads st' (q ++ b ∷ []) on))))
  | inl e ↦ elim (Option-cases (next start b)) [
    | inr (st', k) ↦
        (let on = step-Leads start st' [] b k starts-Leads in
          rw (lossy_from, e)
            (rw (lossy_from, k)
              (is_utf8-append (broken st)
                (done st' (b ∷ []) ++ lossy_from st' (waiting st' (b ∷ [])) s) (broken-IsUtf8 st)
                (is_utf8-append (done st' (b ∷ [])) (lossy_from st' (waiting st' (b ∷ [])) s)
                  (done-IsUtf8 st' (b ∷ []) on)
                  (lossy_from-IsUtf8 st' (waiting st' (b ∷ [])) s
                    (waiting-Leads st' (b ∷ []) on))))))
    | inl k ↦
        rw (lossy_from, e)
          (rw (lossy_from, k)
            (is_utf8-append (broken st) (replacement ++ lossy_from start [] s) (broken-IsUtf8 st) (
              is_utf8-append replacement (lossy_from start [] s) replacement-IsUtf8
                (lossy_from-IsUtf8 start [] s starts-Leads))))
  ]
]

pub from_utf8_lossy-IsUtf8 : (s : Bytes) → is_utf8 (from_utf8_lossy s) ≡ true
unfolding from_utf8_lossy
from_utf8_lossy-IsUtf8 s = lossy_from-IsUtf8 start [] s starts-Leads
