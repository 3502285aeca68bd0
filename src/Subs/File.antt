-- ===== src/Subs/File.antt =====
-- `save` and `load` of src/subs.rs: the file keeps the registry.
use mathlib.Core.Option.{some-injective, none-ne-some}
use yt_websub.Prelude.{
  Option, none, some, [], ◌∷◌, ◌≡◌, inl, inr, refl, sym, ap, ◌∙◌, subst, Bytes, ◌=b◌, Option-cases,
}
use yt_websub.Prelude.Maps.{Table, get, put, IsMap, get-put-at, get-put-off, get-put-inv, Key-cases}
use yt_websub.Subs.{Sub, Registry, empty, insert, by_token}
use yt_websub.Util.Atomic.{Slot, succeeds, write_atomic}
use yt_websub.Subs.Rows.{load, load_text, saved, save}
use yt_websub.Subs.Row.{clamped}
use yt_websub.Subs.Life.{
  IsSound, Reached, Reached-IsSound, empty-IsSound, insert-IsSound, by_token_sound,
}
use yt_websub.Subs.Entries.{
  enter, Everywhere, IsMap-tail, IsMap-head, Fits, Keyed, get-head, get-skip, get-tail,
  Everywhere-head, Everywhere-tail, saved-utf8, foldl-saved,
}

-- A subscription read back, or else what was there.
abbrev pub over : Option Sub → Option Sub → Option Sub
over none before = before
over (some s) before = some (clamped s)

entered_at :
    (c : Bytes) (s : Sub) (m : Table Sub) (r : Registry)
    → get c m ≡ none
    → s.channel_id ≡ c
    → over (get c m) (get c ((insert (clamped s) r).sub_map))
      ≡ over (get c ((c, s) ∷ m)) (get c (r.sub_map))
unfolding insert
entered_at c s m r out keyed =
    rw (out, get-head c s m)
      (ap (λ (x : Bytes). get c (put x (clamped s) (r.sub_map))) keyed
        ∙ get-put-at c (clamped s) (r.sub_map))

entered :
    (c : Bytes) (s : Sub) (m : Table Sub) (r : Registry) (d : Bytes)
    → get c m ≡ none
    → s.channel_id ≡ c
    → over (get d m) (get d ((insert (clamped s) r).sub_map))
      ≡ over (get d ((c, s) ∷ m)) (get d (r.sub_map))
unfolding insert
entered c s m r d out keyed = elim (Key-cases c d) [
  | inl e ↦
      subst
        (λ (x : Bytes).
          over (get x m) (get x ((insert (clamped s) r).sub_map))
          ≡ over (get x ((c, s) ∷ m)) (get x (r.sub_map)))
        e (entered_at c s m r out keyed)
  | inr (e, _) ↦
      ap (over (get d m)) (
        get-put-off d (s.channel_id) (clamped s) (r.sub_map) (ap (λ (x : Bytes). x =b d) keyed ∙ e))
      ∙ ap (λ (o : Option Sub). over o (get d (r.sub_map))) (sym (get-skip c s m d e))
]

enter-sub :
    (m : Table Sub) (r : Registry) (d : Bytes)
    → IsMap m
    → Everywhere Keyed m
    → get d ((enter r m).sub_map) ≡ over (get d m) (get d (r.sub_map))
unfolding enter get
enter-sub [] r d once keyed = refl
enter-sub ((c, s) ∷ m) r d once keyed =
    enter-sub m (insert (clamped s) r) d (IsMap-tail c s m once)
      (Everywhere-tail Keyed c s m once keyed)
    ∙ entered c s m r d (IsMap-head c s m once) (Everywhere-head Keyed c s m keyed)

-- A registry that has none of the channels and tokens of a map.
record IsApart (m : Table Sub) (r : Registry) : Type 0 where
  new_channel : Everywhere (λ c s. get c (r.sub_map) ≡ none) m
  new_token : Everywhere (λ c s. (d : Bytes) → get (s.token) (r.token_map) ≡ some d → c ≡ d) m

-- No token twice.
abbrev OneToken : Table Sub → Type 0
OneToken m =
    (c d : Bytes) (s s' : Sub) → get c m ≡ some s → get d m ≡ some s' → s.token ≡ s'.token → c ≡ d

step-IsApart :
    (c : Bytes) (s : Sub) (m : Table Sub) (r : Registry)
    → IsMap ((c, s) ∷ m)
    → Everywhere Keyed ((c, s) ∷ m)
    → OneToken ((c, s) ∷ m)
    → IsApart ((c, s) ∷ m) r
    → IsApart m (insert (clamped s) r)
unfolding insert
step-IsApart c s m r once keyed one apart =
    let head = Everywhere-head Keyed c s m keyed in
    record {
      new_channel = λ d s' k. elim (Key-cases c d) [
        | inl e ↦
            absurd
              (none-ne-some s' (sym (IsMap-head c s m once) ∙ (ap (λ (x : Bytes). get x m) e ∙ k)))
        | inr (e, _) ↦
            get-put-off d (s.channel_id) (clamped s) (r.sub_map)
              (ap (λ (x : Bytes). x =b d) head ∙ e)
            ∙ Everywhere-tail (λ c s. get c (r.sub_map) ≡ none) c s m once (apart.new_channel) d s'
                k
      ];
      new_token = λ d s' k x g.
          elim (get-put-inv (s'.token) (s.token) (s.channel_id) x (r.token_map) g) [
            | inl (same, ch) ↦
                one d c s' s (get-tail c s m d s' once k) (get-head c s m) (sym same)
                ∙ (sym head ∙ ch)
            | inr (_, h) ↦ (apart.new_token) d s' (get-tail c s m d s' once k) x h
          ];
    }

enter-IsSound :
    (m : Table Sub) (r : Registry)
    → IsSound r
    → IsMap m
    → Everywhere Keyed m
    → OneToken m
    → IsApart m r
    → IsSound (enter r m)
unfolding enter
enter-IsSound [] r sound once keyed one apart = sound
enter-IsSound ((c, s) ∷ m) r sound once keyed one apart =
    let head = Everywhere-head Keyed c s m keyed in
    enter-IsSound m (insert (clamped s) r)
      (insert-IsSound (clamped s) r sound
        (ap (λ (x : Bytes). get x (r.sub_map)) head ∙ apart.new_channel c s (get-head c s m))
        (λ d k. head ∙ apart.new_token c s (get-head c s m) d k))
      (IsMap-tail c s m once) (Everywhere-tail Keyed c s m once keyed)
      (λ d d' s' s'' k k' e.
        one d d' s' s'' (get-tail c s m d s' once k) (get-tail c s m d' s'' once k') e)
      (step-IsApart c s m r once keyed one apart)

module _ (r : Registry) (sound : IsSound r) (fits : Everywhere Fits (r.sub_map)) where
  load-enter : load_text (some (saved (r.sub_map))) ≡ enter empty (r.sub_map)
  unfolding load_text
  load-enter =
      rw (saved-utf8 (r.sub_map) (sound.keys) fits, foldl-saved (r.sub_map) empty (sound.keys) fits)
        refl

  loaded-IsSound : IsSound (load_text (some (saved (r.sub_map))))
  unfolding get
  loaded-IsSound = subst IsSound (sym load-enter) (
      enter-IsSound (r.sub_map) empty empty-IsSound (sound.keys) (sound.indexed.keyed)
        (λ c d s s' h k e. some-injective _ _ (
          sym (sound.indexed.pointed c s h)
          ∙ (ap (λ (x : Bytes). get x (r.token_map)) e ∙ sound.indexed.pointed d s' k)))
        (record {
          new_channel = λ c s h. refl;
          new_token = λ c s h d k. absurd (none-ne-some d k);
        }))

  loaded-sub :
      (c : Bytes)
      → get c ((load_text (some (saved (r.sub_map)))).sub_map) ≡ over (get c (r.sub_map)) none
  unfolding get
  loaded-sub c =
      ap (λ (x : Registry). get c (x.sub_map)) load-enter
      ∙ enter-sub (r.sub_map) empty c (sound.keys) (sound.indexed.keyed)

  -- What the loaded registry finds by a token, the saved one found.
  not_invented :
      (t : Bytes) (s' : Sub)
      → by_token t (load_text (some (saved (r.sub_map)))) ≡ some s'
      → (s : Sub) × (by_token t r ≡ some s)
  not_invented t s' h =
      let (k, e) = (by_token_sound _ loaded-IsSound t s').0 h in
      let there = sym (loaded-sub (s'.channel_id)) ∙ k in
      elim (Option-cases (get (s'.channel_id) (r.sub_map))) [
        | inl n ↦ absurd (none-ne-some s' (sym (ap (λ (o : Option Sub). over o none) n) ∙ there))
        | inr (s, g) ↦
            let same = some-injective _ _ (sym (ap (λ (o : Option Sub). over o none) g) ∙ there) in
            let own = sound.indexed.keyed (s'.channel_id) s g in
            (
              s,
              (by_token_sound r sound t s).1 (
                ap (λ (x : Bytes). get x (r.sub_map)) own ∙ g,
                ap (λ (x : Sub). x.token) same ∙ e,
              ),
            )
      ]

  loaded-token :
      (t : Bytes) → by_token t (load_text (some (saved (r.sub_map)))) ≡ over (by_token t r) none
  loaded-token t = elim (Option-cases (by_token t r)) [
    | inr (s, h) ↦
        let (k, e) = (by_token_sound r sound t s).0 h in
        rw h (
          (by_token_sound _ loaded-IsSound t (clamped s)).1
            (loaded-sub (s.channel_id) ∙ ap (λ (x : Option Sub). over x none) k, e))
    | inl n ↦ elim (Option-cases (by_token t (load_text (some (saved (r.sub_map)))))) [
      | inl n' ↦ rw (n, n') refl
      | inr (s', h) ↦ (let (s, k) = not_invented t s' h in absurd (none-ne-some s (sym n ∙ k)))
    ]
  ]

-- A file that holds the rows of a sound registry gives a sound one, which has that file.
module _ (f : Slot) (r : Registry) (sound : IsSound r) (fits : Everywhere Fits (r.sub_map))
    (holds : f.target ≡ some (saved (r.sub_map))) where
  from_rows : load f ≡ record (load_text (some (saved (r.sub_map)))) { file = f }
  unfolding load
  from_rows = ap (λ (o : Option Bytes). record (load_text o) { file = f }) holds

  pub load-IsSound : IsSound (load f)
  load-IsSound =
      let text = loaded-IsSound r sound fits in
      subst IsSound (sym from_rows)
        (record { keys = text.keys; indexed = text.indexed; graves = text.graves })

  pub load-sub : (c : Bytes) → get c ((load f).sub_map) ≡ over (get c (r.sub_map)) none
  load-sub c = ap (λ (x : Registry). get c (x.sub_map)) from_rows ∙ loaded-sub r sound fits c

  pub load-token : (t : Bytes) → by_token t (load f) ≡ over (by_token t r) none
  unfolding by_token
  load-token t = ap (by_token t) from_rows ∙ loaded-token r sound fits t

-- A registry that is saved and loaded has the same channels, and the same tokens find them: each
-- subscription comes back with its verdict cut to 200 characters, whatever order the map has. The
-- registry came about by the program's changes, and its subscriptions are as `IsSub` says.
pub load-saved :
    (r : Registry)
    → Reached r
    → Everywhere Fits (r.sub_map)
    → ((c : Bytes)
        → get c ((load ((save succeeds r).file)).sub_map) ≡ over (get c (r.sub_map)) none)
      × ((t : Bytes) → by_token t (load ((save succeeds r).file)) ≡ over (by_token t r) none)
unfolding write_atomic
load-saved r reached fits =
    let sound = Reached-IsSound r reached in
    let file = (save succeeds r).file in
    (load-sub file r sound fits refl, load-token file r sound fits refl)
