-- ===== src/Web/Router/Chains.antt =====
-- What the handlers in front of the use cases keep.
use hexagonal_backend.Common.{
  String, refl, false, Option, none, some, List, if_elim, ◌&&◌, not, contains, is_nil,
}
use hexagonal_backend.Common.Text.{is_empty}
use hexagonal_backend.Env.{Env, Claims}
use hexagonal_backend.Middleware.Bearer.{extract_bearer_token}
use hexagonal_backend.Web.{Context, header, set_key, abort, text}
use hexagonal_backend.Web.AppError.{with_status, transport, unauthorized}
use hexagonal_backend.Web.GrantType.{grant_type, grant_type_of, grant_type_key}
use hexagonal_backend.Web.Handler.Keeps.{Keeps, IsAnswerProperty}
use hexagonal_backend.Web.Identity.{
  extract_client_credentials, extract_access_token, authenticate, authenticate_optional,
  set_bearer_identity,
}
use hexagonal_backend.Web.Responder.{fail}

module _ (P : Context → Type 0) (is : IsAnswerProperty P) where
  pub grant_type-Keeps :
      (decode : String → Option String) (unknown : String) (allowed : List String)
      → Keeps P (grant_type decode unknown allowed)
  unfolding grant_type
  grant_type-Keeps decode unknown allowed = record {
    keep = λ c p.
        if_elim (is_empty (grant_type_of decode c.request)) P
          (refused "invalid_request" "grant_type is required" c p)
          (if_elim (not (is_nil allowed) && not (contains allowed (grant_type_of decode c.request)))
            P (refused "unsupported_grant_type" "unsupported grant_type" c p)
            (is.sets grant_type_key (text (grant_type_of decode c.request)) c refl p));
  }
    where
      refused :
          (name desc : String) (c : Context)
          → P c
          → P (abort (fail unknown (transport 400 name desc) false c))
      refused name desc c p =
          is.aborted (fail unknown (transport 400 name desc) false c)
            (is.fails unknown (transport 400 name desc) c p)

  by_option :
      {A : Type 0} (o : Option A) (without : Context) (given : A → Context)
      → P without
      → ((a : A) → P (given a))
      → P (elim o [ none ↦ without | some a ↦ given a ])
  by_option none without given p q = p
  by_option (some a) without given p q = q a

  pub credentials-Keeps : Keeps P extract_client_credentials
  unfolding extract_client_credentials
  credentials-Keeps = record {
    keep = λ c p.
        by_option c.request.basic_auth c
          (λ b. set_key "basic_client_secret" (text b.1) (set_key "basic_client_id" (text b.0) c)) p
          (λ b.
            is.sets "basic_client_secret" (text b.1) (set_key "basic_client_id" (text b.0) c) refl
              (is.sets "basic_client_id" (text b.0) c refl p));
  }

  pub access_token-Keeps : (env : Env) → Keeps P (extract_access_token env)
  unfolding extract_access_token
  access_token-Keeps env = record {
    keep = λ c p.
        by_option (extract_bearer_token env c.request.authorization) c
          (λ token. set_key "access_token" (text token) c) p
          (λ token. is.sets "access_token" (text token) c refl p);
  }

  identity-keep :
      (claims : Claims) (token : String) (c : Context)
      → P c
      → P (set_bearer_identity claims token c)
  unfolding set_bearer_identity
  identity-keep claims token c p =
      let c1 = set_key "access_token" (text token) c in
      let c2 = set_key "issuer" (text claims.issuer) c1 in
      let c3 = set_key "user_id" (text claims.subject) c2 in
      is.sets "grant_id" (text claims.grant_id) c3 refl (
        is.sets "user_id" (text claims.subject) c2 refl (
          is.sets "issuer" (text claims.issuer) c1 refl
            (is.sets "access_token" (text token) c refl p)))

  pub authenticate-Keeps :
      (verify : String → Option (Claims × String)) (unknown : String)
      → Keeps P (authenticate verify unknown)
  unfolding authenticate
  authenticate-Keeps verify unknown = record {
    keep = λ c p.
        let challenge = header "WWW-Authenticate" "Bearer" c in
        let refused = fail unknown (with_status unauthorized 401 "invalid token") false challenge in
        by_option (verify c.request.authorization) (abort refused)
          (λ b. set_bearer_identity b.0 b.1 c)
          (is.aborted refused (
            is.fails unknown (with_status unauthorized 401 "invalid token") challenge
              (is.challenged c p)))
          (λ b. identity-keep b.0 b.1 c p);
  }

  pub optional-Keeps :
      (verify : String → Option (Claims × String)) → Keeps P (authenticate_optional verify)
  unfolding authenticate_optional
  optional-Keeps verify = record {
    keep = λ c p.
        by_option (verify c.request.authorization) c (λ b. set_bearer_identity b.0 b.1 c) p
          (λ b. identity-keep b.0 b.1 c p);
  }
