-- ===== src/Resolve/Cache.antt =====
-- The cache of resolved entries: `save_cache` of src/renew.rs and `load_cache` of src/main.rs.
use yt_websub.Prelude.{
  ℕ, take, true, Option, none, some, [], ◌∷◌, ◌++◌, append_assoc, foldl, ◌≡◌, ◌≢◌, inl, inr, refl,
  sym, ap, ◌∙◌, subst, arith, Bytes, =b_refl, if◌then◌else◌, All, All-append,
}
use yt_websub.Prelude.Maps.{Table, get, put, IsMap, Key-cases, get-put-at, get-put-off}
use yt_websub.Text.Pieces.{lines, lines-append, split_once, split_once-append, Lacks}
use yt_websub.Text.Utf8.{next, valid_from, is_utf8, is_utf8-append, is_utf8-cons}

-- The rows in the order of the map.
unfoldable pub save_cache : Table Bytes → Bytes
save_cache [] = []
save_cache ((k, v) ∷ m) = k ++ b'\t' ∷ (v ++ b'\n' ∷ save_cache m)

unfoldable pub load_entry : Table Bytes → Bytes → Table Bytes
unfolding split_once put
load_entry m line = elim (split_once b'\t' line) [ none ↦ m | some (k, v) ↦ put k v m ]

-- How `fs::write` ends: the file is not opened, so many bytes reach it once it is empty, or all.
pub data WriteEnd : Type 0 where
  not_opened written_whole : WriteEnd
  stopped : ℕ → WriteEnd

unfoldable pub write_file : WriteEnd → Bytes → Option Bytes → Option Bytes
write_file not_opened bytes f = f
write_file (stopped k) bytes f = some (take k bytes)
write_file written_whole bytes f = some bytes

-- `none` is a file that cannot be read; neither can one that is not UTF-8.
unfoldable pub load_cache : Option Bytes → Table Bytes
unfolding is_utf8 lines load_entry
load_cache none = []
load_cache (some content) = if is_utf8 content then foldl load_entry [] (lines content) else []

-- A key and a value that one row can hold.
pub record IsRow (p : Bytes × Bytes) : Type 0 where
  pub key_utf8 : is_utf8 p.0 ≡ true
  pub value_utf8 : is_utf8 p.1 ≡ true
  pub no_tab : Lacks b'\t' p.0
  pub key_line : Lacks b'\n' p.0 × Lacks b'\r' p.0
  pub value_line : Lacks b'\n' p.1 × Lacks b'\r' p.1

row_text : Bytes → Bytes → Bytes
row_text k v = k ++ b'\t' ∷ v

module _ (k v : Bytes) (r : IsRow (k, v)) where
  row_text-Lacks : (b : ℕ) → b ≢ b'\t' → Lacks b k → Lacks b v → Lacks b (row_text k v)
  unfolding row_text
  row_text-Lacks b ne hk hv = All-append (λ c. c ≢ b) k (b'\t' ∷ v) hk (λ t. ne (sym t), hv)

  first_row : (rest : Bytes) → lines (k ++ b'\t' ∷ (v ++ b'\n' ∷ rest)) ≡ row_text k v ∷ lines rest
  unfolding row_text
  first_row rest =
      ap lines (sym (append_assoc k (b'\t' ∷ v) (b'\n' ∷ rest)))
      ∙ lines-append (row_text k v) rest
          (row_text-Lacks b'\n' (omega arith) (r.key_line.0) (r.value_line.0))
          (row_text-Lacks b'\r' (omega arith) (r.key_line.1) (r.value_line.1))

  load_entry-row_text : (m : Table Bytes) → load_entry m (row_text k v) ≡ put k v m
  unfolding load_entry row_text
  load_entry-row_text m = rw (load_entry, split_once-append b'\t' k v (r.no_tab)) refl

save_cache-utf8 : (m : Table Bytes) → All IsRow m → is_utf8 (save_cache m) ≡ true
unfolding save_cache is_utf8 valid_from next
save_cache-utf8 [] h = refl
save_cache-utf8 ((k, v) ∷ m) h =
    is_utf8-append k (b'\t' ∷ (v ++ b'\n' ∷ save_cache m)) (h.0.key_utf8) (
      is_utf8-cons b'\t' (v ++ b'\n' ∷ save_cache m) (omega arith) (
        is_utf8-append v (b'\n' ∷ save_cache m) (h.0.value_utf8)
          (is_utf8-cons b'\n' (save_cache m) (omega arith) (save_cache-utf8 m (h.1)))))

-- The map with the rows entered.
enter_rows : Table Bytes → Table Bytes → Table Bytes
enter_rows m [] = m
enter_rows m ((k, v) ∷ rows) = enter_rows (put k v m) rows

foldl-save_cache :
    (rows m : Table Bytes)
    → All IsRow rows
    → foldl load_entry m (lines (save_cache rows)) ≡ enter_rows m rows
unfolding save_cache enter_rows lines
foldl-save_cache [] m h = refl
foldl-save_cache ((k, v) ∷ rows) m h =
    ap (foldl load_entry m) (first_row k v (h.0) (save_cache rows))
    ∙ ap (λ (x : Table Bytes). foldl load_entry x (lines (save_cache rows)))
        (load_entry-row_text k v (h.0) m)
    ∙ foldl-save_cache rows (put k v m) (h.1)

abbrev or_before : Option Bytes → Option Bytes → Option Bytes
or_before none before = before
or_before (some v) before = some v

put_under_at :
    (k v : Bytes) (rows m : Table Bytes)
    → get k rows ≡ none
    → or_before (get k rows) (get k (put k v m)) ≡ or_before (get k ((k, v) ∷ rows)) (get k m)
unfolding get
put_under_at k v rows m absent = rw (absent, get-put-at k v m, =b_refl k) refl

-- The step for one row.
put_under :
    (k v j : Bytes) (rows m : Table Bytes)
    → get k rows ≡ none
    → or_before (get j rows) (get j (put k v m)) ≡ or_before (get j ((k, v) ∷ rows)) (get j m)
unfolding get
put_under k v j rows m absent = elim (Key-cases k j) [
  | inl e ↦
      subst
        (λ (x : Bytes).
          or_before (get x rows) (get x (put k v m)) ≡ or_before (get x ((k, v) ∷ rows)) (get x m))
        e (put_under_at k v rows m absent)
  | inr (apart, _) ↦ rw apart (ap (or_before (get j rows)) (get-put-off j k v m apart))
]

nothing_before : (j : Bytes) (m : Table Bytes) → get j m ≡ or_before (get j []) (get j m)
unfolding get
nothing_before j m = refl

or_nothing : (o : Option Bytes) → or_before o none ≡ o
or_nothing none = refl
or_nothing (some v) = refl

get-enter_rows :
    (rows m : Table Bytes) (j : Bytes)
    → IsMap rows
    → get j (enter_rows m rows) ≡ or_before (get j rows) (get j m)
unfolding enter_rows IsMap
get-enter_rows [] m j once = nothing_before j m
get-enter_rows ((k, v) ∷ rows) m j once =
    get-enter_rows rows (put k v m) j (once.1) ∙ put_under k v j rows m (once.0)

-- A cache that is saved and loaded gives the same id for every entry, if its keys and values are
-- UTF-8, no key has a tab, and neither has the end of a line.
pub load_cache-save_cache :
    (m : Table Bytes)
    → IsMap m
    → All IsRow m
    → (key : Bytes) → get key (load_cache (some (save_cache m))) ≡ get key m
unfolding load_cache get
load_cache-save_cache m once rows key =
    ap (get key) (rw (load_cache, save_cache-utf8 m rows) (foldl-save_cache m [] rows))
    ∙ get-enter_rows m [] key once
    ∙ or_nothing (get key m)
