-- ===== src/Query/Authorize/Registered.antt =====
-- Where the authorization endpoint redirects to, and what a started session has passed.
use hexagonal_backend.Common.{
  ◌≡◌, refl, String, Bool, true, false, not, ◌&&◌, ◌||◌, Option, none, some, is_some, if◌then◌else◌,
  arith,
}
use hexagonal_backend.Common.Text.{is_empty, str_eq, str_eq→eq}
use hexagonal_backend.Common.Result.{ok, is_ok}
use hexagonal_backend.Define.Response.{session_started}
use hexagonal_backend.Entity.Client.{default_tenant_id, allows_redirect_uri, is_public}
use hexagonal_backend.Entity.Scope.{fields, new_scope}
use hexagonal_backend.Entity.Types.{Client}
use hexagonal_backend.Env.{Env}
use hexagonal_backend.World.{World}
use hexagonal_backend.World.Stores.{find_client}
use hexagonal_backend.Query.Authorize.{
  Query, execute, for_client, protocol_error, valid_pkce, has_openid, response_type_code,
}

-- The client of a query is registered, and has registered the redirect URI.
pub record IsRegistered (env : Env) (q : Query) (client : Client) : Type 0 where
  pub known : find_client default_tenant_id q.client_id env.clients ≡ some client
  pub uri_registered : allows_redirect_uri env client q.redirect_uri ≡ true

-- Any answer that is not an error, so every redirect, is for a registered client and a redirect
-- URI of its own.
pub authorize-IsRegistered :
    (q : Query) (env : Env) (w : World)
    → is_ok (execute q env w).0 ≡ true
    → (client : Client) × IsRegistered env q client
unfolding execute for_client
authorize-IsRegistered q env w h = go (find_client default_tenant_id q.client_id env.clients) refl
  where
    go :
        (r : Option Client)
        → find_client default_tenant_id q.client_id env.clients ≡ r
        → (client : Client) × IsRegistered env q client
    go none e = absurd (ground (arith, h, e))
    go (some client) e = (client, record { known = e; uri_registered = ground (arith, h, e) })

-- A chain of tests that ends in the empty text has passed the first one.
if_blank :
    (b : Bool) (s t : String)
    → is_empty s ≡ false
    → is_empty (if b then s else t) ≡ true
    → (b ≡ false) × (is_empty t ≡ true)
if_blank true s t named h = absurd (ground (arith, named, h))
if_blank false s t named h = (refl, h)

protocol_error-none :
    (q : Query) (client : Client)
    → is_empty (protocol_error q client) ≡ true
    → (str_eq q.response_type response_type_code ≡ true)
      × (has_openid (new_scope (fields q.scope)) ≡ true)
      × (valid_pkce q ≡ true)
      × (is_public client ≡ true → is_some q.code_challenge ≡ true)
unfolding protocol_error
protocol_error-none q client h =
    let a = if_blank (is_empty q.response_type) "invalid_request" _ refl h in
    let b =
      if_blank (not (str_eq q.response_type response_type_code)) "unsupported_response_type" _ refl
        a.1 in
    let c = if_blank (not (has_openid (new_scope (fields q.scope)))) "invalid_scope" _ refl b.1 in
    let d =
      if_blank (not (valid_pkce q) || (is_public client && not (is_some q.code_challenge)))
        "invalid_request" _ refl c.1 in
    (ground (arith, b.0), ground (arith, c.0), ground (arith, d.0), λ p. ground (arith, d.0, p))

-- What a query has passed when a session is started for it.
pub record Admitted (env : Env) (q : Query) : Type 0 where
  pub client : Client
  pub registered : IsRegistered env q client
  pub asks_for_code : q.response_type ≡ response_type_code
  pub openid : has_openid (new_scope (fields q.scope)) ≡ true
  pub pkce : valid_pkce q ≡ true
  pub public_pkce : is_public client ≡ true → is_some q.code_challenge ≡ true

-- A sign-in session is only started for a registered client and redirect URI, for the response
-- type code, with the scope openid and a well-formed S256 challenge, which a public client must
-- have.
pub session-Admitted :
    (q : Query) (env : Env) (w : World) (id : String)
    → (execute q env w).0 ≡ ok (session_started id)
    → Admitted env q
unfolding execute for_client
session-Admitted q env w id h =
    let (client, reg) = authorize-IsRegistered q env w (ground (arith, h)) in
    let passed = protocol_error-none q client (ground (arith, h, reg.known, reg.uri_registered)) in
    record {
      client = client;
      registered = reg;
      asks_for_code = str_eq→eq q.response_type response_type_code passed.0;
      openid = passed.1;
      pkce = passed.2;
      public_pkce = passed.3;
    }
