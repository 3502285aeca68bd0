-- ===== src/Api/Guard.antt =====
-- Who may use the interface of src/api.rs.
use yt_websub.Prelude.{
  Bool, ◌||◌, List, [], ◌∷◌, ◌++◌, ◌≡◌, inl, inr, refl, sym, ap, ◌∙◌, Bytes, codes, ◌=b◌, =b_sound,
  if◌then◌else◌, Bool-cases, any, All, All-append, arith,
}
use yt_websub.Prelude.Maps.{apart-ne}
use yt_websub.Util.Hex.{IsByte}
use yt_websub.Util.Compare.{ct_eq, ct_eq_iff}
use yt_websub.App.{App, Request, json}
use yt_websub.Api.{World, is_authed, route, handle}

ct_eq-agrees : (a b : Bytes) → All IsByte a → All IsByte b → ct_eq a b ≡ a =b b
ct_eq-agrees a b ha hb =
    let same = ct_eq_iff a b ha hb in
    elim (Bool-cases (a =b b)) [
      | inl e ↦ same.1 (=b_sound a b e) ∙ sym e
      | inr e ↦ elim (Bool-cases (ct_eq a b)) [
        | inl k ↦ absurd (apart-ne a b e (same.0 k))
        | inr k ↦ k ∙ sym e
      ]
    ]

-- Some header has exactly `Bearer ` and the token.
abbrev pub has_bearer : Bytes → List Bytes → Bool
has_bearer token = any (λ v. v =b codes "Bearer " ++ token)

any-agrees :
    (expected : Bytes) (values : List Bytes)
    → All IsByte expected
    → All (All IsByte) values
    → any (λ v. ct_eq v expected) values ≡ any (λ v. v =b expected) values
unfolding any
any-agrees expected [] he hv = refl
any-agrees expected (v ∷ more) he hv =
    ap (λ (b : Bool). b || any (λ x. ct_eq x expected) more) (ct_eq-agrees v expected (hv.0) he)
    ∙ ap (λ (b : Bool). v =b expected || b) (any-agrees expected more he (hv.1))

-- A request is served if one of its Authorization headers is `Bearer ` and the configured token, of
-- bytes like the token; otherwise nothing changes and the answer is 401.
pub handle-guarded :
    (w : World) (r : Request) (path query : Bytes) (app : App)
    → All IsByte (app.cfg.bearer_token)
    → All (All IsByte) (r.authorizations)
    → handle w r path query app ≡ (
        if has_bearer (app.cfg.bearer_token) (r.authorizations)
        then route w r path query app
        else (app, json 401 (codes "{\"error\":\"unauthorized\"}")))
unfolding handle is_authed
handle-guarded w r path query app ht hv =
    ap
      (λ (b : Bool).
        if b
        then route w r path query app
        else (app, json 401 (codes "{\"error\":\"unauthorized\"}")))
      (any-agrees (codes "Bearer " ++ app.cfg.bearer_token) (r.authorizations)
        (All-append IsByte (codes "Bearer ") (app.cfg.bearer_token) (omega arith) ht) hv)
