-- ===== src/Command/ExchangeCode/Checks.antt =====
-- What an exchange that answers with tokens has checked.
use hexagonal_backend.Common.{◌≡◌, refl, String, true, Option, none, some, is_some, arith, eq_iff}
use hexagonal_backend.Common.Result.{Result, ok, err, is_ok}
use hexagonal_backend.Entity.AuthCode.{
  is_valid, is_expired, matches_client, matches_redirect_uri, verify_code_verifier,
}
use hexagonal_backend.Entity.Client.{is_public, allows_grant, grant_authorization_code}
use hexagonal_backend.Entity.Types.{Client, AuthCode}
use hexagonal_backend.Env.{Env}
use hexagonal_backend.World.{World}
use hexagonal_backend.Service.Authenticator.{authenticate}
use hexagonal_backend.Command.ExchangeCode.{
  Command, credentials, execute, for_client, redeem, consume_auth_code,
}

-- The checks of a code, for a client and a command.
pub record Checked (env : Env) (c : Command) (client : Client) (ac : AuthCode) : Type 0 where
  pub own_code : ac.client_id ≡ some client.id
  pub same_uri : ac.redirect_uri ≡ c.redirect_uri
  pub verifier : is_ok (verify_code_verifier env ac c.code_verifier) ≡ true
  pub public_has_challenge : is_public client ≡ true → is_some ac.code_challenge ≡ true

is_valid-true :
    (ac : AuthCode) (client_id uri verifier : String) (env : Env) (w : World)
    → (is_valid ac client_id uri verifier env w).0 ≡ ok true
    → (ac.client_id ≡ some client_id)
      × (ac.redirect_uri ≡ uri)
      × (is_ok (verify_code_verifier env ac verifier) ≡ true)
unfolding is_valid is_expired matches_client matches_redirect_uri
is_valid-true ac client_id uri verifier env w h = go ac.client_id refl
  where
    go :
        (o : Option String)
        → ac.client_id ≡ o
        → (ac.client_id ≡ some client_id)
          × (ac.redirect_uri ≡ uri)
          × (is_ok (verify_code_verifier env ac verifier) ≡ true)
    go none e = absurd (ground (arith, h, e))
    go (some o) e = ground (arith, h, e, eq_iff o client_id, eq_iff ac.redirect_uri uri)

redeem-Checked :
    (c : Command) (client : Client) (ac : AuthCode) (env : Env) (w : World)
    → is_ok (redeem c client ac env w).0 ≡ true
    → Checked env c client ac
unfolding redeem
redeem-Checked c client ac env w h = record {
  own_code = valid.0;
  same_uri = valid.1;
  verifier = valid.2;
  public_has_challenge = λ p. ground (arith, h, p);
}
  where
    valid :
        (ac.client_id ≡ some client.id)
        × (ac.redirect_uri ≡ c.redirect_uri)
        × (is_ok (verify_code_verifier env ac c.code_verifier) ≡ true)
    valid = is_valid-true ac client.id c.redirect_uri c.code_verifier env w (ground (arith, h))

-- What stands behind an answer with tokens: the client that authenticated and may use the grant,
-- and the code that was in the cache and passed the checks.
pub record Exchanged (env : Env) (w : World) (c : Command) : Type 0 where
  pub client : Client
  pub ac : AuthCode
  pub authenticated : authenticate env (credentials c) ≡ ok client
  pub grant_allowed : allows_grant client grant_authorization_code ≡ true
  pub taken : (consume_auth_code c.code env w).0 ≡ ok ac
  pub checked : Checked env c client ac

-- Tokens are only issued for a code that was in the cache, to the authenticated client that the
-- code was issued for and that may use the grant, at the same redirect URI, with the verifier of
-- the code's challenge, which a public client must have.
pub exchange_checked :
    (c : Command) (env : Env) (w : World) → is_ok (execute c env w).0 ≡ true → Exchanged env w c
unfolding execute for_client
exchange_checked c env w h = go (authenticate env (credentials c)) refl
  where
    taken :
        (client : Client)
        → authenticate env (credentials c) ≡ ok client
        → (r : Result AuthCode) → (consume_auth_code c.code env w).0 ≡ r
        → Exchanged env w c
    taken client a (err x) e = absurd (ground (arith, h, a, e))
    taken client a (ok code) e = record {
      client = client;
      ac = code;
      authenticated = a;
      grant_allowed = ground (arith, h, a);
      taken = e;
      checked =
          redeem-Checked c client code env (consume_auth_code c.code env w).1
            (ground (arith, h, a, e));
    }

    go : (r : Result Client) → authenticate env (credentials c) ≡ r → Exchanged env w c
    go (err x) e = absurd (ground (arith, h, e))
    go (ok client) e = taken client e (consume_auth_code c.code env w).0 refl
