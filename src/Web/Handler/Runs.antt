-- ===== src/Web/Handler/Runs.antt =====
-- Steps of a chain, and which use cases they run.
use hexagonal_backend.Common.{
  String, ◌≡◌, refl, ap, Bool, true, false, Option, none, some, List, [], ◌∷◌, ◌++◌, Option-cases,
  inl, inr, arith,
}
use hexagonal_backend.Web.{Context}
use hexagonal_backend.Web.AppError.{AppError, map_http_error}
use hexagonal_backend.Web.Dispatcher.{Reply, dispatch, answered, failed}
use hexagonal_backend.Web.Handler.{Handler, Module, run_chain, handle_if, respond, bind_error}
use hexagonal_backend.Web.Responder.{
  fail, fail_oauth2, succeed, set_cookies, redirect, forbid_store,
}

pub run_chain_aborted :
    (h : Handler) (rest : List Handler) (c : Context)
    → (h c).aborted ≡ true
    → run_chain (h ∷ rest) c ≡ h c
unfolding run_chain
run_chain_aborted h rest c e = rw e refl

pub run_chain_next :
    (h : Handler) (rest : List Handler) (c : Context)
    → (h c).aborted ≡ false
    → run_chain (h ∷ rest) c ≡ run_chain rest (h c)
unfolding run_chain
run_chain_next h rest c e = rw e refl

pub fail-executed :
    (unknown : String) (e : AppError) (is_html : Bool) (c : Context)
    → (fail unknown e is_html c).executed ≡ c.executed
unfolding fail fail_oauth2
fail-executed unknown e true c = refl
fail-executed unknown e false c = ground arith

respond-executed :
    (m : Module) (is_html : Bool) (name : String) (c : Context)
    → (respond m is_html name c).executed ≡ c.executed ++ (name ∷ [])
unfolding respond succeed set_cookies redirect forbid_store
respond-executed m is_html name c = by_reply (dispatch m.registry name c) refl
  where
    by_reply :
        (r : Reply)
        → dispatch m.registry name c ≡ r
        → (respond m is_html name c).executed ≡ c.executed ++ (name ∷ [])
    by_reply (answered a) e = rw (e, respond) (ground arith)
    by_reply (failed err) e =
        rw (e, respond)
          (fail-executed m.unknown (map_http_error m.unknown err) is_html
            (record c { executed = c.executed ++ (name ∷ []) }))

-- What a request whose use case is run has run.
abbrev pub ran : Module → String → Context → List String
ran m name c = elim (bind_error m name c) [ none ↦ c.executed ++ (name ∷ []) | some e ↦ c.executed ]

pub ran_first :
    (o : Option AppError) (name : String) (before : List String)
    → before ≡ []
    → elim o [ none ↦ before ++ (name ∷ []) | some e ↦ before ]
      ≡ elim o [ none ↦ name ∷ [] | some e ↦ [] ]
ran_first none name before e = ap (λ l. l ++ (name ∷ [])) e
ran_first (some bad) name before e = e

pub handle_if_runs :
    (m : Module) (when : Context → Bool) (name : String) (c : Context)
    → when c ≡ true
    → ((handle_if m when name c).aborted ≡ true)
      × ((handle_if m when name c).executed ≡ ran m name c)
unfolding handle_if
handle_if_runs m when name c e = elim (Option-cases (bind_error m name c)) [
  | inl fine ↦ rw (e, fine, ran) (refl, respond-executed m false name c)
  | inr (bad, there) ↦
      rw (e, there, ran) (refl, fail-executed m.unknown (map_http_error m.unknown bad) false c)
]

pub handle_if_skips :
    (m : Module) (when : Context → Bool) (name : String) (c : Context)
    → when c ≡ false
    → handle_if m when name c ≡ c
unfolding handle_if
handle_if_skips m when name c e = rw e refl
