-- ===== src/Subs/Entries.antt =====
-- The rows of the file of src/subs.rs, as `save` writes and `load` reads them.
use mathlib.Core.Option.{none-ne-some}
use yt_websub.Prelude.{
  true, false, none, some, [], ◌∷◌, ◌++◌, append_assoc, foldl, ◌≡◌, inl, inr, refl, sym, ap, ◌∙◌,
  arith, Bytes, ◌=b◌, =b_refl,
}
use yt_websub.Prelude.Maps.{Table, get, IsMap, Key-cases}
use yt_websub.Text.Pieces.{lines, lines-append}
use yt_websub.Text.Utf8.{next, valid_from, is_utf8, is_utf8-append}
use yt_websub.Subs.{Sub, Registry, insert}
use yt_websub.Subs.Rows.{load_line, saved, fmt_line, columns}
use yt_websub.Subs.Row.{IsSub, clamped, parse_line-columns, columns-utf8, columns-Lacks}

-- What `load` makes of the rows of a map.
unfoldable pub enter : Registry → Table Sub → Registry
enter r [] = r
enter r ((c, s) ∷ m) = enter (insert (clamped s) r) m

-- What is true of every entry.
abbrev pub Everywhere : (Bytes → Sub → Type 0) → Table Sub → Type 0
Everywhere P m = (c : Bytes) (s : Sub) → get c m ≡ some s → P c s

pub get-head : (c : Bytes) (s : Sub) (m : Table Sub) → get c ((c, s) ∷ m) ≡ some s
unfolding get
get-head c s m = rw (=b_refl c) refl

pub get-skip :
    (c : Bytes) (s : Sub) (m : Table Sub) (d : Bytes)
    → c =b d ≡ false
    → get d ((c, s) ∷ m) ≡ get d m
unfolding get
get-skip c s m d e = rw e refl

pub get-tail :
    (c : Bytes) (s : Sub) (m : Table Sub) (d : Bytes) (s' : Sub)
    → IsMap ((c, s) ∷ m)
    → get d m ≡ some s'
    → get d ((c, s) ∷ m) ≡ some s'
unfolding get IsMap
get-tail c s m d s' once k = elim (Key-cases c d) [
  | inl e ↦ absurd (none-ne-some s' (sym (once.0) ∙ (ap (λ (x : Bytes). get x m) e ∙ k)))
  | inr (e, _) ↦ rw e k
]

module _ (P : Bytes → Sub → Type 0) (c : Bytes) (s : Sub) (m : Table Sub) where
  pub Everywhere-head : Everywhere P ((c, s) ∷ m) → P c s
  Everywhere-head h = h c s (get-head c s m)

  pub Everywhere-tail : IsMap ((c, s) ∷ m) → Everywhere P ((c, s) ∷ m) → Everywhere P m
  Everywhere-tail once h d s' k = h d s' (get-tail c s m d s' once k)

pub IsMap-tail : (c : Bytes) (s : Sub) (m : Table Sub) → IsMap ((c, s) ∷ m) → IsMap m
unfolding IsMap
IsMap-tail c s m h = h.1

pub IsMap-head : (c : Bytes) (s : Sub) (m : Table Sub) → IsMap ((c, s) ∷ m) → get c m ≡ none
unfolding IsMap
IsMap-head c s m h = h.0

abbrev pub Fits : Bytes → Sub → Type 0
Fits c s = IsSub s

abbrev pub Keyed : Bytes → Sub → Type 0
Keyed c s = s.channel_id ≡ c

pub saved-utf8 : (m : Table Sub) → IsMap m → Everywhere Fits m → is_utf8 (saved m) ≡ true
unfolding saved fmt_line is_utf8 valid_from next
saved-utf8 [] once fits = refl
saved-utf8 ((c, s) ∷ m) once fits =
    is_utf8-append (columns s ++ b'\n' ∷ []) (saved m)
      (is_utf8-append (columns s) (b'\n' ∷ []) (columns-utf8 s (Everywhere-head Fits c s m fits))
        refl)
      (saved-utf8 m (IsMap-tail c s m once) (Everywhere-tail Fits c s m once fits))

load_line-columns :
    (s : Sub) (r : Registry) → IsSub s → load_line r (columns s) ≡ insert (clamped s) r
unfolding load_line
load_line-columns s r v = rw (load_line, parse_line-columns s v) refl

first_line :
    (s : Sub) (rest : Bytes)
    → IsSub s
    → lines ((columns s ++ b'\n' ∷ []) ++ rest) ≡ columns s ∷ lines rest
first_line s rest v =
    ap lines (append_assoc (columns s) (b'\n' ∷ []) rest)
    ∙ lines-append (columns s) rest (columns-Lacks s v 10 (omega arith) (omega arith))
        (columns-Lacks s v 13 (omega arith) (omega arith))

pub foldl-saved :
    (m : Table Sub) (r : Registry)
    → IsMap m
    → Everywhere Fits m
    → foldl load_line r (lines (saved m)) ≡ enter r m
unfolding saved fmt_line enter lines
foldl-saved [] r once fits = refl
foldl-saved ((c, s) ∷ m) r once fits =
    let v = Everywhere-head Fits c s m fits in
    ap (foldl load_line r) (first_line s (saved m) v)
    ∙ ap (λ (x : Registry). foldl load_line x (lines (saved m))) (load_line-columns s r v)
    ∙ foldl-saved m (insert (clamped s) r) (IsMap-tail c s m once)
        (Everywhere-tail Fits c s m once fits)
