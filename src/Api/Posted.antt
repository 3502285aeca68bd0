-- ===== src/Api/Posted.antt =====
-- The file of channels that src/api.rs writes, as `desired_set` of src/renew.rs reads it.
use yt_websub.Prelude.{
  ℕ, ◌≤◌, Bool, true, false, ◌||◌, not, Option, none, some, List, [], ◌∷◌, ◌++◌, append-nil, ◌≡◌,
  inl, inr, refl, sym, ap, ◌∙◌, arith, Bytes, ◌=b◌, Bool-cases, All, All-map, keep, All-keep, all,
  and-left, and-right,
}
use yt_websub.Text.Lines.{rows, IsLine, lines-rows, lines-Lacks, lines-IsUtf8, rows_utf8, IsUtf8}
use yt_websub.Text.Pieces.{Lacks, lines, begins_by}
use yt_websub.Text.Space.{trim}
use yt_websub.Text.Utf8.{is_utf8, is_utf8-append}
use yt_websub.Renew.Desired.{is_entry, entry_lines}
use yt_websub.Api.Body.{is_plain, is_safe_channel_entry, kept_lines, render_channels_file}

entry_lines-append : (a b : List Bytes) → entry_lines (a ++ b) ≡ entry_lines a ++ entry_lines b
unfolding entry_lines
entry_lines-append [] b = refl
entry_lines-append (l ∷ a) b = elim (Bool-cases (is_entry l)) [
  | inl e ↦ rw e (ap (λ (t : List Bytes). trim l ∷ t) (entry_lines-append a b))
  | inr e ↦ rw e (entry_lines-append a b)
]

-- Comments and blank lines are no entries.
entry_lines-comments : (ls : List Bytes) → entry_lines (keep (λ l. not (is_entry l)) ls) ≡ []
unfolding entry_lines keep
entry_lines-comments [] = refl
entry_lines-comments (l ∷ ls) = elim (Bool-cases (is_entry l)) [
  | inl e ↦ rw e (entry_lines-comments ls)
  | inr e ↦ rw (e, e) (entry_lines-comments ls)
]

entry_lines-kept_lines : (existing : Option Bytes) → entry_lines (kept_lines existing) ≡ []
unfolding kept_lines entry_lines
entry_lines-kept_lines none = refl
entry_lines-kept_lines (some content) = elim (Bool-cases (is_utf8 content)) [
  | inl e ↦ rw e (entry_lines-comments (lines content))
  | inr e ↦ rw e refl
]

kept_lines-Lacks : (existing : Option Bytes) → All (Lacks b'\n') (kept_lines existing)
unfolding kept_lines
kept_lines-Lacks none = tt
kept_lines-Lacks (some content) = elim (Bool-cases (is_utf8 content)) [
  | inl e ↦
      rw e (All-keep (Lacks b'\n') (λ l. not (is_entry l)) (lines content) (lines-Lacks content))
  | inr e ↦ rw e tt
]

kept_lines-IsUtf8 : (existing : Option Bytes) → All IsUtf8 (kept_lines existing)
unfolding kept_lines
kept_lines-IsUtf8 none = tt
kept_lines-IsUtf8 (some content) = elim (Bool-cases (is_utf8 content)) [
  | inl e ↦ rw e (All-keep IsUtf8 (λ l. not (is_entry l)) (lines content) (lines-IsUtf8 content e))
  | inr e ↦ rw e tt
]

-- An entry as it is posted: safe, with no white space around it.
pub record IsPosted (c : Bytes) : Type 0 where
  pub safe : is_safe_channel_entry c ≡ true
  pub trimmed : trim c ≡ c

pub plain-le : (b : ℕ) → is_plain b ≡ true → 32 ≤ b
plain-le b h = ground arith

plain-IsLine : (c : Bytes) → all is_plain c ≡ true → IsLine c
unfolding all
plain-IsLine [] h = (tt, tt)
plain-IsLine (b ∷ c) h =
    let here = and-left (is_plain b) (all is_plain c) h in
    let (more, end) = plain-IsLine c (and-right (is_plain b) (all is_plain c) h) in
    ((omega (arith, plain-le b here), more), (omega (arith, plain-le b here), end))

-- Whether a posted entry is read again.
abbrev pub is_read : Bytes → Bool
is_read c = not (begins_by b'#' c)

entry_test : Bytes → Bool
entry_test t = not (t =b [] || begins_by b'#' t)

is_entry-trim : (c t : Bytes) → trim c ≡ t → is_entry c ≡ entry_test t
unfolding is_entry entry_test
is_entry-trim c t h = ap (λ (x : Bytes). not (x =b [] || begins_by b'#' x)) h

entry_test-is_read : (c : Bytes) → c =b [] ≡ false → entry_test c ≡ is_read c
unfolding entry_test
entry_test-is_read c h = rw h refl

not-true : (b : Bool) → not b ≡ true → b ≡ false
not-true true h = sym h
not-true false h = refl

module _ (c : Bytes) (h : is_safe_channel_entry c ≡ true) where
  pub safe_full : c =b [] ≡ false
  unfolding is_safe_channel_entry
  safe_full = not-true (c =b []) (and-left (not (c =b [])) (all is_plain c) h)

  pub safe_plain : all is_plain c ≡ true
  unfolding is_safe_channel_entry
  safe_plain = and-right (not (c =b [])) (all is_plain c) h

  pub safe-IsLine : IsLine c
  safe-IsLine = plain-IsLine c safe_plain

posted-is_entry : (c : Bytes) → IsPosted c → is_entry c ≡ is_read c
posted-is_entry c h = is_entry-trim c c (h.trimmed) ∙ entry_test-is_read c (safe_full c (h.safe))

entry_lines-posted : (cs : List Bytes) → All IsPosted cs → entry_lines cs ≡ keep is_read cs
unfolding entry_lines keep
entry_lines-posted [] h = refl
entry_lines-posted (c ∷ cs) h = elim (Bool-cases (is_read c)) [
  | inl e ↦
      rw (posted-is_entry c h.0, e, h.0.trimmed)
        (ap (λ (t : List Bytes). c ∷ t) (entry_lines-posted cs h.1))
  | inr e ↦ rw (posted-is_entry c h.0, e) (entry_lines-posted cs h.1)
]

both-IsLine : (ls : List Bytes) → All (Lacks b'\n') ls → All (Lacks b'\r') ls → All IsLine ls
both-IsLine [] h k = tt
both-IsLine (l ∷ ls) h k = ((h.0, k.0), both-IsLine ls (h.1) (k.1))

module _ (existing : Option Bytes) (cs : List Bytes)
    (no_return : All (Lacks b'\r') (kept_lines existing)) (posted : All IsPosted cs) where
  -- The file that is written for some posted entries, none with white space around it, has those that
  -- do not begin with `#` as its entries, in their order, if no comment that is kept holds a carriage
  -- return.
  pub render_channels_file-entries :
      entry_lines (lines (render_channels_file existing cs)) ≡ keep is_read cs
  unfolding render_channels_file lines
  render_channels_file-entries =
      ap entry_lines (
        lines-rows (kept_lines existing) (rows cs)
          (both-IsLine _ (kept_lines-Lacks existing) no_return)
        ∙ ap (λ (t : List Bytes). kept_lines existing ++ t)
            (ap lines (sym (append-nil (rows cs)))
              ∙ lines-rows cs [] (All-map IsPosted IsLine (λ c h. safe-IsLine c (h.safe)) cs posted)
              ∙ append-nil cs))
      ∙ entry_lines-append (kept_lines existing) cs
      ∙ ap (λ (t : List Bytes). t ++ entry_lines cs) (entry_lines-kept_lines existing)
      ∙ entry_lines-posted cs posted

pub render_channels_file-utf8 :
    (existing : Option Bytes) (cs : List Bytes)
    → All IsUtf8 cs
    → is_utf8 (render_channels_file existing cs) ≡ true
unfolding render_channels_file
render_channels_file-utf8 existing cs h =
    is_utf8-append (rows (kept_lines existing)) (rows cs)
      (rows_utf8 (kept_lines existing) (kept_lines-IsUtf8 existing)) (rows_utf8 cs h)
