-- ===== src/Web/Handler.antt =====
-- handler/web/handler.go: gin's chains of handlers, and the handlers that run a use case.
pub mod Keeps
pub mod Runs
use hexagonal_backend.Common.{
  String, Bool, true, false, Option, none, some, List, [], ◌∷◌, ◌++◌, if◌then◌else◌,
}
use hexagonal_backend.Web.{Context, abort}
use hexagonal_backend.Web.AppError.{AppError, map_http_error}
use hexagonal_backend.Web.Dispatcher.{Registry, UseCase, dispatch, find, answered, failed}
use hexagonal_backend.Web.Responder.{fail, succeed}

-- gin.HandlerFunc. None of the program's handlers does anything after ctx.Next(), so a chain is a
-- sequence that an abort ends.
abbrev pub Handler : Type 0
Handler = Context → Context

-- Context.Next
unfoldable pub run_chain : List Handler → Context → Context
run_chain [] c = c
run_chain (h ∷ rest) c =
    let c' = h c in let next = run_chain rest c' in if c'.aborted then c' else next

-- HTTPUseCaseModule: the registry, and the text of the errors that are not the program's.
pub record Module : Type 0 where
  pub registry : Registry
  pub unknown : String

unfoldable pub bind_error : Module → String → Context → Option AppError
unfolding find
bind_error m name c = elim (find name m.registry) [ none ↦ none | some uc ↦ uc.bind c ]

-- The call of Dispatch and the answer to it.
unfoldable pub respond : Module → Bool → String → Context → Context
unfolding dispatch succeed fail map_http_error
respond m is_html name c =
    let ran = record c { executed = c.executed ++ (name ∷ []) } in
    elim (dispatch m.registry name c) [
      | answered a ↦ succeed a ran
      | failed e ↦ fail m.unknown (map_http_error m.unknown e) is_html ran
    ]

-- handle, which Handle and HandleHTML instantiate; an error of binding is not mapped.
unfoldable pub handle : Module → Bool → String → Handler
unfolding bind_error respond fail
handle m is_html name c = elim (bind_error m name c) [
  | some e ↦ fail m.unknown e is_html c
  | none ↦ respond m is_html name c
]

-- HandleIf
unfoldable pub handle_if : Module → (Context → Bool) → String → Handler
unfolding bind_error respond fail map_http_error
handle_if m when name c =
    if when c
    then elim (bind_error m name c) [
      | some e ↦ abort (fail m.unknown (map_http_error m.unknown e) false c)
      | none ↦ abort (respond m false name c)
    ]
    else c
