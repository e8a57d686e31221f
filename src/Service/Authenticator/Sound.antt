-- ===== src/Service/Authenticator/Sound.antt =====
-- What an authenticated client has shown.
use mathlib.Core.Path.{subst}
use hexagonal_backend.Common.{
  String, ◌≡◌, refl, ap, not, ◌&&◌, ◌⊎◌, inl, inr, Bool, true, false, Option, none, some,
  Bool-cases, arith, eq_iff,
}
use hexagonal_backend.Common.Text.{is_empty, str_eq}
use hexagonal_backend.Common.Result.{ok, err, is_ok}
use hexagonal_backend.Entity.Client.{default_tenant_id, verify_secret}
use hexagonal_backend.Entity.Types.{
  Client, ClientAuthMethod, none_method, secret_basic, secret_post, other_method,
}
use hexagonal_backend.Env.{Env}
use hexagonal_backend.Errors.{plain}
use hexagonal_backend.Service.Authenticator.{
  ClientCredentials, Channel, resolve_credential_channel, authenticate, check_method, check_secret,
}
use hexagonal_backend.World.Stores.{find_client}

-- Over the form, without Basic credentials: the client of the form's id, which is public and has
-- given no secret, or is registered for the form and has given its secret there.
pub record ByForm (env : Env) (creds : ClientCredentials) (client : Client) : Type 0 where
  pub no_basic : creds.basic_client_id ≡ ""
  pub named : find_client default_tenant_id creds.client_id env.clients ≡ some client
  pub shown :
      ((client.auth_method ≡ none_method) × (creds.form_secret ≡ ""))
      ⊎ ((client.auth_method ≡ secret_post)
          × (is_ok (verify_secret env client creds.form_secret) ≡ true))

-- Over Basic: the client of the id that Basic gives, which the form names too if it names one, and
-- which is registered for Basic and has given its secret there.
pub record ByBasic (env : Env) (creds : ClientCredentials) (client : Client) : Type 0 where
  pub present : is_empty creds.basic_client_id ≡ false
  pub named : find_client default_tenant_id creds.basic_client_id env.clients ≡ some client
  pub not_contradicted : (creds.client_id ≡ "") ⊎ (creds.client_id ≡ creds.basic_client_id)
  pub registered_for_basic : client.auth_method ≡ secret_basic
  pub shown : is_ok (verify_secret env client creds.basic_secret) ≡ true

-- What the method of a client asks of a channel.
abbrev Asks : Env → Client → Channel → ClientAuthMethod → Type 0
Asks env client ch none_method = (ch.via_basic ≡ false) × (ch.secret ≡ "")
Asks env client ch secret_basic =
    (ch.via_basic ≡ true) × (is_ok (verify_secret env client ch.secret) ≡ true)
Asks env client ch secret_post =
    (ch.via_basic ≡ false) × (is_ok (verify_secret env client ch.secret) ≡ true)
Asks env client ch (other_method m) = true ≡ false

check_method-Asks :
    (env : Env) (client c : Client) (ch : Channel) (m : ClientAuthMethod)
    → check_method env client ch m ≡ ok c
    → (client ≡ c) × Asks env client ch m
unfolding check_method check_secret
check_method-Asks env client c ch none_method h =
    (ground (arith, h), (ground (arith, h), ground (arith, h, eq_iff ch.secret "")))
check_method-Asks env client c ch secret_basic h =
    (ground (arith, h), (ground (arith, h), ground (arith, h)))
check_method-Asks env client c ch secret_post h =
    (ground (arith, h), (ground (arith, h), ground (arith, h)))
check_method-Asks env client c ch (other_method m) h = absurd (ground (arith, h))

over_form :
    (env : Env) (client : Client) (secret id : String) (m : ClientAuthMethod)
    → Asks env client (record { client_id = id; secret = secret; via_basic = false }) m
    → ((m ≡ none_method) × (secret ≡ ""))
      ⊎ ((m ≡ secret_post) × (is_ok (verify_secret env client secret) ≡ true))
over_form env client secret id none_method h = inl (refl, h.1)
over_form env client secret id secret_basic h = absurd (ground (arith, h.0))
over_form env client secret id secret_post h = inr (refl, h.1)
over_form env client secret id (other_method m) h = absurd (ground (arith, h))

over_basic :
    (env : Env) (client : Client) (secret id : String) (m : ClientAuthMethod)
    → Asks env client (record { client_id = id; secret = secret; via_basic = true }) m
    → (m ≡ secret_basic) × (is_ok (verify_secret env client secret) ≡ true)
over_basic env client secret id none_method h = absurd (ground (arith, h.0))
over_basic env client secret id secret_basic h = (refl, h.1)
over_basic env client secret id secret_post h = absurd (ground (arith, h.0))
over_basic env client secret id (other_method m) h = absurd (ground (arith, h))

-- Once the channel is known, what Authenticate does with it.
on_channel :
    (env : Env) (creds : ClientCredentials) (client : Client) (ch : Channel)
    → resolve_credential_channel creds ≡ ok ch
    → authenticate env creds ≡ ok client
    → (find_client default_tenant_id ch.client_id env.clients ≡ some client)
      × Asks env client ch client.auth_method
unfolding authenticate
on_channel env creds client ch e h =
    found (find_client default_tenant_id ch.client_id env.clients) refl
  where
    found :
        (o : Option Client)
        → find_client default_tenant_id ch.client_id env.clients ≡ o
        → (o ≡ some client) × Asks env client ch client.auth_method
    found none f = absurd (ground (arith, h, e, f))
    found (some c) f =
        let (same, asked) =
          check_method-Asks env c client ch c.auth_method (ground (arith, h, e, f)) in
        (ap some same, subst (λ x. Asks env x ch x.auth_method) same asked)

-- The form names a client that is not the one of Basic.
abbrev contradicts : ClientCredentials → Bool
contradicts creds =
    not (is_empty creds.client_id) && not (str_eq creds.client_id creds.basic_client_id)

resolve-form :
    (creds : ClientCredentials)
    → is_empty creds.basic_client_id ≡ true
    → resolve_credential_channel creds
      ≡ ok (record { client_id = creds.client_id; secret = creds.form_secret; via_basic = false })
unfolding resolve_credential_channel
resolve-form creds absent = rw absent refl

resolve-basic :
    (creds : ClientCredentials)
    → is_empty creds.basic_client_id ≡ false
    → contradicts creds ≡ false
    → resolve_credential_channel creds
      ≡ ok (record {
        client_id = creds.basic_client_id;
        secret = creds.basic_secret;
        via_basic = true;
      })
unfolding resolve_credential_channel
resolve-basic creds present fine = rw (present, fine) refl

authenticate-contradicts :
    (env : Env) (creds : ClientCredentials) (client : Client)
    → is_empty creds.basic_client_id ≡ false
    → authenticate env creds ≡ ok client
    → contradicts creds ≡ false
unfolding authenticate resolve_credential_channel
authenticate-contradicts env creds client present h = elim (Bool-cases (contradicts creds)) [
  | inr fine ↦ fine
  | inl bad ↦ absurd (
      let refused : err (plain "client_id mismatch between Basic auth and request body")
          ≡ ok client =
        rw (present, bad) at h in
      ground (arith, refused))
]

agree :
    (creds : ClientCredentials)
    → contradicts creds ≡ false
    → (creds.client_id ≡ "") ⊎ (creds.client_id ≡ creds.basic_client_id)
agree creds fine = elim (Bool-cases (is_empty creds.client_id)) [
  | inl none_given ↦ inl (ground (arith, none_given, eq_iff creds.client_id ""))
  | inr given ↦ inr (ground (arith, fine, given, eq_iff creds.client_id creds.basic_client_id))
]

-- A client that authenticates does so over one channel. Without a Basic client id it is the
-- registered client of the form's id, public and without a secret, or registered for the form with
-- its secret given there. With one it is the registered client of that id, which the form does not
-- contradict, and it is registered for Basic and has given its secret there.
pub authenticate_sound :
    (env : Env) (creds : ClientCredentials) (client : Client)
    → authenticate env creds ≡ ok client
    → ByForm env creds client ⊎ ByBasic env creds client
authenticate_sound env creds client h = elim (Bool-cases (is_empty creds.basic_client_id)) [
  | inl absent ↦
      let (named, asked) = on_channel env creds client _ (resolve-form creds absent) h in
      inl (record {
        no_basic = ground (arith, absent, eq_iff creds.basic_client_id "");
        named = named;
        shown = over_form env client creds.form_secret creds.client_id client.auth_method asked;
      })
  | inr present ↦
      let fine = authenticate-contradicts env creds client present h in
      let (named, asked) = on_channel env creds client _ (resolve-basic creds present fine) h in
      let (registered, shown) =
        over_basic env client creds.basic_secret creds.basic_client_id client.auth_method asked in
      inr (record {
        present = present;
        named = named;
        not_contradicted = agree creds fine;
        registered_for_basic = registered;
        shown = shown;
      })
]
