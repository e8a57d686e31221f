-- ===== src/Web/Router/Token.antt =====
-- Which use case a token request runs.
use mathlib.Core.Path.{subst}
use hexagonal_backend.Common.{
  String, ◌≡◌, refl, sym, ap, ◌∙◌, true, false, Option, none, some, List, [], ◌∷◌, if◌then◌else◌,
  Bool-cases, inl, inr, contains, arith, eq_iff,
}
use hexagonal_backend.Common.Text.{str_eq, str_eq→eq, is_empty}
use hexagonal_backend.Web.{Context, Request, fresh, set_key, text}
use hexagonal_backend.Web.AppError.{transport}
use hexagonal_backend.Web.GrantType.{grant_type, grant_type_of, grant_type_is, grant_type_key}
use hexagonal_backend.Web.Handler.{Handler, run_chain, handle_if, bind_error}
use hexagonal_backend.Web.Headers.{security_headers, oauth2_errors}
use hexagonal_backend.Web.Identity.{extract_client_credentials}
use hexagonal_backend.Web.Router.{
  Router, token_handlers, allowed_grant_types, grant_type_refresh_token, grant_type_auth_code,
  grant_type_password,
}
use hexagonal_backend.Web.Handler.Runs.{
  run_chain_aborted, run_chain_next, fail-executed, ran_first, handle_if_runs, handle_if_skips, ran,
}

-- The command of a grant type that is allowed.
abbrev pub command_for : String → String
command_for gt =
    if str_eq gt grant_type_refresh_token
    then "RefreshTokenCommand"
    else if str_eq gt grant_type_auth_code
    then "ExchangeCodeCommand"
    else "GetTokenQuery"

credentials-frame :
    (c : Context)
    → let c' = extract_client_credentials c in
      (c'.aborted ≡ c.aborted)
      × (c'.executed ≡ c.executed)
      × (c'.keys grant_type_key ≡ c.keys grant_type_key)
unfolding extract_client_credentials
credentials-frame c = (ground arith, ground arith, ground arith)

allowed-named : (gt : String) → contains allowed_grant_types gt ≡ true → is_empty gt ≡ false
unfolding contains
allowed-named gt h = elim (Bool-cases (is_empty gt)) [
  | inr named ↦ named
  | inl empty ↦
      let there : contains allowed_grant_types "" ≡ true =
        subst (λ s. contains allowed_grant_types s ≡ true) (str_eq→eq gt "" empty) h in
      absurd (cc)
]

module _ (decode : String → Option String) (unknown : String) (c : Context) where
  abbrev asked : String
  asked = grant_type_of decode c.request

  grant_type_passes :
      contains allowed_grant_types asked ≡ true
      → grant_type decode unknown allowed_grant_types c ≡ set_key grant_type_key (text asked) c
  unfolding grant_type
  grant_type_passes h = rw (allowed-named asked h, h) refl

  grant_type_stops :
      contains allowed_grant_types asked ≡ false
      → let stopped = grant_type decode unknown allowed_grant_types c in
        (stopped.aborted ≡ true) × (stopped.executed ≡ c.executed)
  unfolding grant_type
  grant_type_stops h = elim (Bool-cases (is_empty asked)) [
    | inl e ↦ rw e (
      refl,
      fail-executed unknown (transport 400 "invalid_request" "grant_type is required") false c,
    )
    | inr e ↦
        rw (e, h)
          (
            refl,
            fail-executed unknown (transport 400 "unsupported_grant_type" "unsupported grant_type")
                false c,
          )
  ]

module _ (ro : Router) (req : Request) where
  abbrev pub requested : String
  requested = grant_type_of ro.decode_grant_type req

  abbrev flagged : Context
  flagged = oauth2_errors (security_headers (fresh req))

  -- The context that the use case of an allowed grant type is run in.
  abbrev pub ready : Context
  ready = extract_client_credentials (set_key grant_type_key (text requested) flagged)

  ready_lem :
      (ready.aborted ≡ false)
      × (ready.executed ≡ [])
      × (ready.keys grant_type_key ≡ some (text requested))
  unfolding oauth2_errors security_headers
  ready_lem =
      let (a, e, k) = credentials-frame (set_key grant_type_key (text requested) flagged) in
      (a, e, k)

  ready-grant_type_is : (gt : String) → grant_type_is gt ready ≡ str_eq requested gt
  unfolding grant_type_is
  ready-grant_type_is gt = rw (ready_lem.2, grant_type_is) refl

  abbrev of : String → String → Handler
  of gt name = handle_if ro.app (grant_type_is gt) name

  runs_as :
      (gt name : String)
      → str_eq requested gt ≡ true
      → ((of gt name ready).aborted ≡ true) × ((of gt name ready).executed ≡ ran ro.app name ready)
  runs_as gt name e =
      handle_if_runs ro.app (grant_type_is gt) name ready (ready-grant_type_is gt ∙ e)

  skipped :
      (gt name : String) (rest : List Handler)
      → str_eq requested gt ≡ false
      → run_chain (of gt name ∷ rest) ready ≡ run_chain rest ready
  skipped gt name rest e =
      let same =
        handle_if_skips ro.app (grant_type_is gt) name ready (ready-grant_type_is gt ∙ e) in
      run_chain_next (of gt name) rest ready (ap (λ c. c.aborted) same ∙ ready_lem.0)
      ∙ ap (λ c. run_chain rest c) same

  abbrev handlers : List Handler
  handlers =
      handle_if ro.app (grant_type_is grant_type_refresh_token) "RefreshTokenCommand"
      ∷ handle_if ro.app (grant_type_is grant_type_auth_code) "ExchangeCodeCommand"
      ∷ handle_if ro.app (grant_type_is grant_type_password) "GetTokenQuery"
      ∷ []

  handlers_run :
      contains allowed_grant_types requested ≡ true
      → ((run_chain handlers ready).aborted ≡ true)
        × ((run_chain handlers ready).executed ≡ ran ro.app (command_for requested) ready)
  handlers_run h = elim (Bool-cases (str_eq requested grant_type_refresh_token)) [
    | inl refresh ↦
        let (stop, did) = runs_as grant_type_refresh_token "RefreshTokenCommand" refresh in
        rw
          (
            refresh,
            run_chain_aborted (of grant_type_refresh_token "RefreshTokenCommand") _ ready stop,
          )
          (stop, did)
    | inr a ↦ elim (Bool-cases (str_eq requested grant_type_auth_code)) [
      | inl exchange ↦
          let (stop, did) = runs_as grant_type_auth_code "ExchangeCodeCommand" exchange in
          rw
            (
              a,
              exchange,
              skipped grant_type_refresh_token "RefreshTokenCommand" _ a,
              run_chain_aborted (of grant_type_auth_code "ExchangeCodeCommand") _ ready stop,
            )
            (stop, did)
      | inr b ↦
          let last : str_eq requested grant_type_password ≡ true =
            unfold contains in
            ground (
              arith,
              h,
              a,
              b,
              eq_iff requested grant_type_refresh_token,
              eq_iff requested grant_type_auth_code,
              eq_iff requested grant_type_password,
              eq_iff grant_type_refresh_token requested,
              eq_iff grant_type_auth_code requested,
              eq_iff grant_type_password requested,
            ) in
          let (stop, did) = runs_as grant_type_password "GetTokenQuery" last in
          rw
            (
              a,
              b,
              skipped grant_type_refresh_token "RefreshTokenCommand" _ a,
              skipped grant_type_auth_code "ExchangeCodeCommand" _ b,
              run_chain_aborted (of grant_type_password "GetTokenQuery") _ ready stop,
            )
            (stop, did)
    ]
  ]

  abbrev asks : Handler
  asks = grant_type ro.decode_grant_type ro.app.unknown allowed_grant_types

  to_ready :
      contains allowed_grant_types requested ≡ true
      → run_chain (asks ∷ extract_client_credentials ∷ handlers) flagged ≡ run_chain handlers ready
  unfolding security_headers oauth2_errors
  to_ready allowed =
      let same = grant_type_passes ro.decode_grant_type ro.app.unknown flagged allowed in
      run_chain_next asks (extract_client_credentials ∷ handlers) flagged (ap (λ c. c.aborted) same)
      ∙ ap (λ c. run_chain (extract_client_credentials ∷ handlers) c) same
      ∙ run_chain_next extract_client_credentials handlers
          (set_key grant_type_key (text requested) flagged) ready_lem.0

  abbrev IsRun : Context → Type 0
  IsRun done =
      (done.aborted ≡ true)
      × (done.executed ≡ (
          if contains allowed_grant_types requested
          then elim (bind_error ro.app (command_for requested) ready) [
            | none ↦ command_for requested ∷ []
            | some e ↦ []
          ]
          else []))

  allowed-IsRun : contains allowed_grant_types requested ≡ true → IsRun (run_chain handlers ready)
  allowed-IsRun allowed =
      let (stop, did) = handlers_run allowed in
      rw allowed (
        stop,
        did
            ∙ ran_first (bind_error ro.app (command_for requested) ready) (command_for requested)
                ready.executed ready_lem.1,
      )

  refused-IsRun :
      contains allowed_grant_types requested ≡ false
      → IsRun (run_chain (asks ∷ extract_client_credentials ∷ handlers) flagged)
  unfolding security_headers oauth2_errors
  refused-IsRun refused =
      let (stop, none_ran) = grant_type_stops ro.decode_grant_type ro.app.unknown flagged refused in
      subst IsRun
        (sym (run_chain_aborted asks (extract_client_credentials ∷ handlers) flagged stop))
        (rw refused (stop, none_ran))

  -- A token request is always answered by the chain, and runs a use case only if its grant type is
  -- allowed and the request binds to the command: then that of the grant type, and no other.
  pub token_runs_one :
      let done = run_chain (token_handlers ro) (security_headers (fresh req)) in
      (done.aborted ≡ true)
      × (done.executed ≡ (
          if contains allowed_grant_types requested
          then elim (bind_error ro.app (command_for requested) ready) [
            | none ↦ command_for requested ∷ []
            | some e ↦ []
          ]
          else []))
  unfolding security_headers oauth2_errors
  token_runs_one =
      let behind = asks ∷ extract_client_credentials ∷ handlers in
      let first = run_chain_next oauth2_errors behind (security_headers (fresh req)) refl in
      subst IsRun (sym first) (elim (Bool-cases (contains allowed_grant_types requested)) [
        | inl allowed ↦ subst IsRun (sym (to_ready allowed)) (allowed-IsRun allowed)
        | inr refused ↦ refused-IsRun refused
      ])
