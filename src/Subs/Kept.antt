-- ===== src/Subs/Kept.antt =====
-- The registry of src/subs.rs together with its file: both stay in a state from which a restart can
-- go on.
use mathlib.Core.Option.{none-ne-some, some-injective}
use yt_websub.Prelude.{
  ℕ, Option, none, some, ◌≡◌, ◌⊎◌, inl, inr, refl, sym, ap, ◌∙◌, subst, Bytes, Option-cases,
}
use yt_websub.Prelude.Maps.{get, get-put-inv, get-delete-inv}
use yt_websub.Util.Atomic.{Slot, Fate, write_atomic-target}
use yt_websub.Subs.{
  Sub, Registry, empty, insert, update, remove, remove_found, sweep_unsub, forget_unsub,
}
use yt_websub.Subs.Rows.{load, load_text, saved, save}
use yt_websub.Subs.Row.{IsSub, clamped}
use yt_websub.Subs.Clamp.{clamp_error-utf8}
use yt_websub.Subs.Index.{IsFree}
use yt_websub.Subs.Life.{
  IsSound, empty-IsSound, insert-IsSound, update-IsSound, remove-IsSound, forget_unsub-IsSound,
  save-IsSound,
}
use yt_websub.Subs.Entries.{Everywhere, Fits}
use yt_websub.Subs.File.{over, load-IsSound, load-sub}

-- The file is not there, or it holds all rows of a registry that was sound and fit.
abbrev pub IsStored : Slot → Type 0
IsStored f =
    (f.target ≡ none)
    ⊎ ((r : Registry) × IsSound r
        × Everywhere Fits (r.sub_map)
        × (f.target ≡ some (saved (r.sub_map))))

pub record IsKept (r : Registry) : Type 0 where
  pub sound : IsSound r
  pub fits : Everywhere Fits (r.sub_map)
  pub stored : IsStored r.file

pub save-IsKept : (fate : Fate) (r : Registry) → IsKept r → IsKept (save fate r)
save-IsKept fate r k = record {
  sound = save-IsSound fate r k.sound;
  fits = k.fits;
  stored = elim (write_atomic-target fate (saved (r.sub_map)) r.file) [
    | inl (_, e) ↦ inr (r, k.sound, k.fits, e)
    | inr (_, e) ↦ elim k.stored [
      | inl n ↦ inl (e ∙ n)
      | inr (before, sound, fits, t) ↦ inr (before, sound, fits, e ∙ t)
    ]
  ];
}

put-Fits :
    (s : Sub) (r : Registry) (c : Bytes) (s' : Sub)
    → IsSub s
    → Everywhere Fits (r.sub_map)
    → get c ((update s r).sub_map) ≡ some s'
    → IsSub s'
unfolding update
put-Fits s r c s' good fits h = elim (get-put-inv c (s.channel_id) s s' (r.sub_map) h) [
  | inl (_, e) ↦ subst IsSub e good
  | inr (_, k) ↦ fits c s' k
]

pub update-IsKept :
    (s : Sub) (r : Registry) → IsKept r → IsFree s (r.token_map) → IsSub s → IsKept (update s r)
unfolding update
update-IsKept s r k free good = record {
  sound = update-IsSound s r k.sound free;
  fits = λ c s' h. put-Fits s r c s' good k.fits h;
  stored = k.stored;
}

pub insert-IsKept :
    (s : Sub) (r : Registry)
    → IsKept r
    → get (s.channel_id) (r.sub_map) ≡ none
    → IsFree s (r.token_map)
    → IsSub s
    → IsKept (insert s r)
unfolding insert update
insert-IsKept s r k absent free good = record {
  sound = insert-IsSound s r k.sound absent free;
  fits = λ c s' h. put-Fits s r c s' good k.fits h;
  stored = k.stored;
}

removed-rest :
    (c : Bytes) (now : ℕ) (r : Registry)
    → Everywhere Fits (r.sub_map)
    → Everywhere Fits ((remove c now r).0.sub_map) × ((remove c now r).0.file ≡ r.file)
unfolding remove remove_found sweep_unsub
removed-rest c now r fits = elim (Option-cases (get c (r.sub_map))) [
  | inl n ↦ rw (remove, n) (fits, refl)
  | inr (s, e) ↦ rw (remove, e) (λ d s' h. fits d s' (get-delete-inv d c s' (r.sub_map) h).1, refl)
]

pub remove-IsKept : (c : Bytes) (now : ℕ) (r : Registry) → IsKept r → IsKept ((remove c now r).0)
remove-IsKept c now r k =
    let (fits, same) = removed-rest c now r k.fits in
    record {
      sound = remove-IsSound c now r k.sound;
      fits = fits;
      stored = subst IsStored (sym same) k.stored;
    }

pub forget_unsub-IsKept :
    (t : Bytes) (now : ℕ) (r : Registry) → IsKept r → IsKept (forget_unsub t now r)
unfolding forget_unsub sweep_unsub
forget_unsub-IsKept t now r k = record {
  sound = forget_unsub-IsSound t now r k.sound;
  fits = k.fits;
  stored = k.stored;
}

clamped-IsSub : (s : Sub) → IsSub s → IsSub (clamped s)
clamped-IsSub s g = record {
  channel_graphic = g.channel_graphic;
  token_graphic = g.token_graphic;
  topic_graphic = g.topic_graphic;
  secret_graphic = g.secret_graphic;
  state_graphic = g.state_graphic;
  lease_fits = g.lease_fits;
  expires_fits = g.expires_fits;
  last_fits = g.last_fits;
  fails_fit = g.fails_fit;
  next_fits = g.next_fits;
  error_utf8 = clamp_error-utf8 (s.last_error) g.error_utf8;
}

over-IsSub :
    (o : Option Sub) (s : Sub) → ((t : Sub) → o ≡ some t → IsSub t) → over o none ≡ some s → IsSub s
over-IsSub none s good h = absurd (none-ne-some s h)
over-IsSub (some t) s good h = subst IsSub (some-injective _ _ h) (clamped-IsSub t (good t refl))

load-none : (f : Slot) → f.target ≡ none → load f ≡ record empty { file = f }
unfolding load load_text
load-none f n = ap (λ (o : Option Bytes). record (load_text o) { file = f }) n

load-file : (f : Slot) → (load f).file ≡ f
unfolding load
load-file f = refl

fresh-IsKept : (f : Slot) → f.target ≡ none → IsKept (record empty { file = f })
unfolding get
fresh-IsKept f n = record {
  sound = record {
    keys = empty-IsSound.keys;
    indexed = empty-IsSound.indexed;
    graves = empty-IsSound.graves;
  };
  fits = λ c s h. absurd (none-ne-some s h);
  stored = inl n;
}

-- What is read from a file that `save` left, whatever became of it, is sound and can be saved again.
pub load-IsKept : (f : Slot) → IsStored f → IsKept (load f)
load-IsKept f (inl n) = subst IsKept (sym (load-none f n)) (fresh-IsKept f n)
load-IsKept f (inr (r, sound, fits, e)) = record {
  sound = load-IsSound f r sound fits e;
  fits = λ c s h.
      over-IsSub (get c (r.sub_map)) s (λ t k. fits c t k) (sym (load-sub f r sound fits e c) ∙ h);
  stored = subst IsStored (sym (load-file f)) (inr (r, sound, fits, e));
}
