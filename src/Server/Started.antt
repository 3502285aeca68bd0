-- ===== src/Server/Started.antt =====
-- What a start of src/main.rs that serves has read.
use mathlib.Core.Bool.{true≢false}
use yt_websub.Prelude.{
  ℕ, ◌≤◌, Bool, true, false, Option, List, ◌≡◌, ◌⊎◌, inl, inr, refl, sym, ap, ◌∙◌, subst, Bytes,
  Bool-cases, Option-cases,
}
use yt_websub.Text.Number.{max_u64}
use yt_websub.Prelude.Outcomes.{ok, err}
use yt_websub.Config.{Config, Result, accepted, refused, load_config, config_map}
use yt_websub.Config.Checked.{TellsTruth, from_map-TellsTruth}
use yt_websub.Store.{Disk, Store, open_store}
use yt_websub.Store.Reopen.{opened, open_store-opened}
use yt_websub.App.{App}
use yt_websub.Main.{
  Machine, Start, exits, serves, config_path, disk_at, shared, start_with, start_from, start,
}

is_serving : Start → Bool
is_serving (exits n) = false
is_serving (serves app n) = true

app_or : App → Start → App
app_or d (exits n) = d
app_or d (serves app n) = app

never : {P : Type 0} (code n : ℕ) (app : App) → exits code ≡ serves app n → P
unfolding is_serving
never code n app h = absurd (true≢false (sym (ap is_serving h)))

-- What the state is made of.
pub record CameUp (m : Machine) (app : App) : Type 0 where
  pub made : app ≡ shared m app.cfg (opened (disk_at m app.cfg.storage_dir))
  pub lease_fits : app.cfg.lease_seconds ≤ max_u64

served_app : (a b : App) (k n : ℕ) → serves a k ≡ serves b n → a ≡ b
unfolding app_or
served_app a b k n h = ap (app_or a) h

with_inv :
    (m : Machine) (cfg : Config) (s : Store) (app : App) (n : ℕ)
    → start_with m cfg (ok s) ≡ serves app n
    → shared m cfg s ≡ app
unfolding start_with
with_inv m cfg s app n h = elim (Option-cases (m.read cfg.tls_cert)) [
  | inl e ↦ never 2 n app (rw (start_with, e) at h)
  | inr (cert, e) ↦ elim (Option-cases (m.read cfg.tls_key)) [
    | inl f ↦ never 2 n app (rw (start_with, e, f) at h)
    | inr (key, f) ↦ elim (Bool-cases (m.listens cfg.listen)) [
      | inr g ↦ never 2 n app (rw (start_with, e, f, g) at h)
      | inl g ↦ served_app _ _ _ _ (rw (start_with, e, f, g) at h)
    ]
  ]
]

open-cases :
    (a b : Bool) (disk : Disk)
    → (open_store a b disk ≡ err) ⊎ (open_store a b disk ≡ ok (opened disk))
unfolding open_store
open-cases false b disk = inl refl
open-cases true false disk = inl refl
open-cases true true disk = inr (open_store-opened disk)

came_up :
    (m : Machine) (cfg : Config) (app : App)
    → shared m cfg (opened (disk_at m cfg.storage_dir)) ≡ app
    → cfg.lease_seconds ≤ max_u64
    → CameUp m app
unfolding shared
came_up m cfg app e fits = subst (CameUp m) e (record { made = refl; lease_fits = fits })

from_inv :
    (m : Machine) (app : App) (n : ℕ) (o : Result Config)
    → ((c : Config) → o ≡ accepted c → c.lease_seconds ≤ max_u64)
    → start_from m o ≡ serves app n
    → CameUp m app
unfolding start_from
from_inv m app n (refused why) fits h = never 2 n app h
from_inv m app n (accepted cfg) fits h =
    elim (open-cases (m.dir_ok cfg.storage_dir) (m.log_ok cfg.storage_dir)
      (disk_at m cfg.storage_dir)) [
        | inl e ↦ never 2 n app (sym (ap (start_with m cfg) e) ∙ h)
        | inr e ↦
            came_up m cfg app
              (with_inv m cfg (opened (disk_at m cfg.storage_dir)) app n
                (sym (ap (start_with m cfg) e) ∙ h))
              (fits cfg refl)
      ]

lease_fits_of :
    (file : Option Bytes) (env : List (Bytes × Bytes)) (c : Config)
    → load_config file env ≡ accepted c
    → c.lease_seconds ≤ max_u64
unfolding load_config
lease_fits_of file env c h =
    let usable : TellsTruth (config_map file env) (accepted c) =
      subst (TellsTruth (config_map file env)) h (from_map-TellsTruth (config_map file env)) in
    (usable.0).lease_fits

pub start-CameUp : (m : Machine) (app : App) (n : ℕ) → start m ≡ serves app n → CameUp m app
unfolding start
start-CameUp m app n h =
    from_inv m app n (load_config (m.read (config_path m)) m.env)
      (λ c e. lease_fits_of (m.read (config_path m)) m.env c e) h
