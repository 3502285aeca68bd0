-- ===== src/Http/Tests.antt =====
-- Requests of src/http.rs at concrete URLs.
use yt_websub.Prelude.{some, [], ◌∷◌, ◌≡◌, ◌⊎◌, refl, arith, codes, ◌++◌, All}
use yt_websub.Prelude.Maps.{get}
use yt_websub.Text.Utf8.{is_utf8, next}
use yt_websub.Util.Query.{query_text, IsTextPair}
use yt_websub.Subs.{by_token}
use yt_websub.Callback.{activated}
use yt_websub.Callback.Verified.{verify_query}
use yt_websub.Http.Called.{handle-verified_url}
use yt_websub.App.{Request, post_method, empty, json, text}
use yt_websub.Api.Tests.{api_world}
use yt_websub.Callback.Tests.{
  config, sub0, sub0-found, get_request, world, registry0, registry0-IsKeyed, app_of,
}
use yt_websub.Http.{handle}
use yt_websub.Http.Entitled.{KeepsAll, IsEntitled, handle-IsEntitled}

abbrev stranger : Request
stranger = record {
  method = post_method;
  signature = some (codes "sha1=00");
  authorizations = codes "Bearer guess" ∷ [];
  body = codes "{\"channels\":[]}";
}

lost_test :
    (handle (world 1000) registry0 api_world stranger (codes "/") (app_of registry0)).1 ≡ empty 404
unfolding handle
lost_test = refl

refused_test :
    (handle
      (world 1000)
      registry0
      api_world
      stranger
      (codes "/api/channels?x=1")
      (app_of registry0)).1
    ≡ json 401 (codes "{\"error\":\"unauthorized\"}")
unfolding handle
refused_test = refl

handle-IsEntitled_example :
    KeepsAll
      (app_of registry0)
      (handle
        (world 1000)
        registry0
        api_world
        stranger
        (codes "/api/channels")
        (app_of registry0)).0
    ⊎ IsEntitled (world 1000) registry0 stranger (app_of registry0)
handle-IsEntitled_example =
    handle-IsEntitled (world 1000) registry0 api_world stranger (app_of registry0) registry0-IsKeyed
      (omega arith) ((omega arith), tt) (codes "/api/channels")

sub0-by_token : by_token (codes "0011") registry0 ≡ some sub0
unfolding by_token yt_websub.Subs.insert yt_websub.Prelude.◌=b◌
sub0-by_token = refl

asked-All : All IsTextPair (verify_query config sub0 (codes "xyz") 9999999)
unfolding is_utf8 next yt_websub.Text.Number.to_string yt_websub.Hub.send_form get
    yt_websub.Prelude.◌=b◌
asked-All = ((refl, refl), ((refl, refl), ((refl, refl), ((refl, refl), ((refl, refl), tt)))))

handle-verified_url_example :
    ((handle
        (world 1000)
        registry0
        api_world
        get_request
        (codes "/yt/cb/0011?" ++ query_text (verify_query config sub0 (codes "xyz") 9999999))
        (app_of registry0)).1
      ≡ text (codes "xyz"))
    × (get
          (codes "UC1")
          (handle
            (world 1000)
            registry0
            api_world
            get_request
            (codes "/yt/cb/0011?" ++ query_text (verify_query config sub0 (codes "xyz") 9999999))
            (app_of registry0)).0.subs.sub_map
        ≡ some (activated 1000 432000 sub0))
handle-verified_url_example =
    handle-verified_url config sub0 (codes "xyz") 9999999 (omega arith) (omega arith) asked-All
      (world 1000) registry0 api_world get_request (app_of registry0) sub0 sub0-by_token refl
      (λ h. ground arith) (omega arith) sub0-found refl
