-- ===== src/Tests/Requests.antt =====
-- Authorization, introspection, rate limits and error codes in the small deployment.
use hexagonal_backend.Common.{
  ◌≤◌, ◌-◌, ◌≡◌, refl, true, false, none, some, ◌↔◌, ◌⊎◌, leb, ◌*◌, [], ◌∷◌, arith,
}
use hexagonal_backend.Common.Result.{ok, is_ok}
use hexagonal_backend.Common.Time.{hour}
use hexagonal_backend.Define.Response.{session_started, inactive, active}
use hexagonal_backend.Env.{Env, healthy}
use hexagonal_backend.Errors.{create_user_failed}
use hexagonal_backend.Errors.Registry.{oauth2_code_for, http_status_for, member, server_error_codes}
use hexagonal_backend.Errors.Statuses.{server_error_codes_agree}
use hexagonal_backend.Middleware.Bearer.{check_token}
use hexagonal_backend.Middleware.RateLimit.{rate_limit}
use hexagonal_backend.Middleware.RateLimit.Window.{passed, passed_bound, rate_limit_counts, Counted}
use hexagonal_backend.Query.Authorize
use hexagonal_backend.Query.Authorize.Registered.{
  session-Admitted, authorize-IsRegistered, Admitted, IsRegistered,
}
use hexagonal_backend.Query.Introspect
use hexagonal_backend.Query.Introspect.Verdict.{introspect_agrees}
use hexagonal_backend.Service.Authenticator.{ClientCredentials, authenticate}
use hexagonal_backend.Service.Authenticator.Sound.{ByForm, ByBasic, authenticate_sound}
use hexagonal_backend.Service.Jwt.{parse_jwt}
use hexagonal_backend.World.{World, number}
use hexagonal_backend.Tests.Fixtures.{env, world, app, claims}

abbrev asking : Authorize.Query
asking = record {
  response_type = "code";
  client_id = "app";
  redirect_uri = "https://app/cb";
  scope = "openid";
  state = none;
  nonce = none;
  code_challenge = none;
  code_challenge_method = none;
}

session_starts : (Authorize.execute asking env world).0 ≡ ok (session_started "id")
unfolding Authorize.execute hexagonal_backend.World.Stores.find_client
    hexagonal_backend.Entity.Client.allows_redirect_uri hexagonal_backend.Common.contains
    hexagonal_backend.Entity.Client.normalize_redirect_uri Authorize.protocol_error
    hexagonal_backend.Entity.Scope.new_scope hexagonal_backend.Entity.Scope.fields
    hexagonal_backend.Entity.Scope.all_supported
    hexagonal_backend.Entity.AuthRequest.new_authorize_request
    hexagonal_backend.World.Cache.cache_set
session_starts = refl

session-Admitted_example : Admitted env asking
session-Admitted_example = session-Admitted asking env world "id" session_starts

authorize_answers : is_ok (Authorize.execute asking env world).0 ≡ true
authorize_answers = rw session_starts refl

authorize-IsRegistered_example : (client : _) × IsRegistered env asking client
authorize-IsRegistered_example = authorize-IsRegistered asking env world authorize_answers

abbrev creds : ClientCredentials
creds = record {
  client_id = "app";
  form_secret = "";
  basic_client_id = "app";
  basic_secret = "s3cret";
}

authenticate_sound_example : ByForm env creds app ⊎ ByBasic env creds app
unfolding authenticate hexagonal_backend.World.Stores.find_client
    hexagonal_backend.Entity.Client.verify_secret
authenticate_sound_example = authenticate_sound env creds app refl

abbrev introspecting : Introspect.Query
introspecting = record {
  client_id = "app";
  client_secret = "";
  basic_client_id = "app";
  basic_client_secret = "s3cret";
  token = "jwt";
  token_type_hint = none;
}

introspect_agrees_example :
    ((Introspect.execute introspecting env world).0 ≡ ok (active (Introspect.describe claims))
      × ((check_token "jwt" env world).0 ≡ ok (some (claims, "jwt"))))
    ⊎ ((Introspect.execute introspecting env world).0 ≡ ok inactive
        × ((check_token "jwt" env world).0 ≡ ok none))
unfolding Introspect.authorize_caller authenticate parse_jwt
    hexagonal_backend.World.Stores.find_client hexagonal_backend.Entity.Client.verify_secret
    hexagonal_backend.Common.contains
introspect_agrees_example = introspect_agrees introspecting claims env world refl refl refl refl

abbrev counting : World
counting = record world {
  cache = ("ratelimit:10.0.0.1", record { value = number 4; expires_at = some (2 * hour) }) ∷ [];
}

rate_limit_counts_example :
    let (r, v) = rate_limit 5 60 "10.0.0.1" "/token" (healthy env) counting in
    (r ≡ ok (leb 5 5)) × Counted "10.0.0.1" 5 (2 * hour) v
unfolding hexagonal_backend.World.Map.lookup
rate_limit_counts_example =
    rate_limit_counts 5 60 4 "10.0.0.1" "/token" (2 * hour) env counting refl (omega arith) refl
      refl

server_error_codes_agree_example :
    ((oauth2_code_for create_user_failed ≡ "server_error")
      ↔ (member server_error_codes create_user_failed ≡ true))
    × (oauth2_code_for create_user_failed ≡ "server_error"
        → http_status_for create_user_failed ≡ 500)
server_error_codes_agree_example = server_error_codes_agree create_user_failed

-- The environment whose clock stands still.
abbrev frozen : Env
frozen = record env { time = λ n. hour }

passed_bound_example : passed 10 5 60 "10.0.0.1" "/token" (healthy frozen) counting ≤ 5 - 4
unfolding hexagonal_backend.World.Map.lookup
passed_bound_example =
    passed_bound 10 4 5 60 "10.0.0.1" "/token" (2 * hour) frozen counting refl (omega arith) refl
      λ n. refl
