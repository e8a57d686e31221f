-- ===== src/Web/Handler/Keeps.antt =====
-- Properties of a context that handlers keep.
use hexagonal_backend.Common.{
  String, ◌≡◌, refl, Bool, false, none, some, List, [], ◌∷◌, ◌++◌, if_elim, Option-cases, inl, inr,
}
use hexagonal_backend.Common.Text.{str_eq}
use hexagonal_backend.Web.{Context, header, set_key, abort, KeyValue, oauth2_error_format_key}
use hexagonal_backend.Web.AppError.{AppError, map_http_error}
use hexagonal_backend.Web.Dispatcher.{Reply, dispatch, answered, failed}
use hexagonal_backend.Web.Responder.{Answer, fail, succeed}
use hexagonal_backend.Web.Handler.{
  Handler, Module, run_chain, handle, handle_if, respond, bind_error,
}

-- A proof for the first of a list and one for the rest.
infixr 20 ◌▹◌
abbrev pub ◌▹◌ {ℓ κ} : {A : Type ℓ} {B : Type κ} → A → B → A × B
first ▹ rest = (first, rest)

-- What a handler keeps, whatever the context.
pub record Keeps {ℓ} (P : Context → Type ℓ) (h : Handler) : Type ℓ where
  pub keep : (c : Context) → P c → P (h c)

-- Every handler of a chain keeps it.
abbrev pub AllKeep {ℓ} : (Context → Type ℓ) → List Handler → Type ℓ
AllKeep P [] = Unit
AllKeep P (h ∷ rest) = Keeps P h × AllKeep P rest

pub run_chain-Keeps {ℓ} :
    (P : Context → Type ℓ) (chain : List Handler)
    → AllKeep P chain
    → (c : Context) → P c
    → P (run_chain chain c)
unfolding run_chain
run_chain-Keeps P [] ks c p = p
run_chain-Keeps P (h ∷ rest) ks c p =
    if_elim (h c).aborted P (ks.0.keep c p) (run_chain-Keeps P rest ks.1 (h c) (ks.0.keep c p))

-- A property of the answer so far, which the list of use cases that were run and an abort leave
-- alone, and which showing an answer or an error keeps.
pub record IsAnswerProperty {ℓ} (P : Context → Type ℓ) : Type ℓ where
  pub ran : (c : Context) (names : List String) → P c → P (record c { executed = names })
  pub sets :
      (key : String) (value : KeyValue) (c : Context)
      → str_eq key oauth2_error_format_key ≡ false
      → P c
      → P (set_key key value c)
  pub challenged : (c : Context) → P c → P (header "WWW-Authenticate" "Bearer" c)
  pub aborted : (c : Context) → P c → P (abort c)
  pub succeeds : (a : Answer) (c : Context) → P c → P (succeed a c)
  pub fails : (unknown : String) (e : AppError) (c : Context) → P c → P (fail unknown e false c)

-- Showing an error, as a page or not, keeps it.
abbrev pub FailKeeps {ℓ} : (Context → Type ℓ) → Bool → Type ℓ
FailKeeps P is_html =
    (unknown : String) (e : AppError) (c : Context) → P c → P (fail unknown e is_html c)

module _ {ℓ} (P : Context → Type ℓ) (is : IsAnswerProperty P) where
  respond-keep :
      (m : Module) (is_html : Bool) (name : String) (c : Context)
      → FailKeeps P is_html
      → P c
      → P (respond m is_html name c)
  unfolding respond
  respond-keep m is_html name c fails p = by_reply (dispatch m.registry name c) refl
    where
      ran : Context
      ran = record c { executed = c.executed ++ (name ∷ []) }

      started : P ran
      started = is.ran c (c.executed ++ (name ∷ [])) p

      by_reply : (r : Reply) → dispatch m.registry name c ≡ r → P (respond m is_html name c)
      by_reply (answered a) e = rw (e, respond) (is.succeeds a ran started)
      by_reply (failed err) e =
          rw (e, respond) (fails m.unknown (map_http_error m.unknown err) ran started)

  pub handle-Keeps :
      (m : Module) (is_html : Bool) (name : String)
      → FailKeeps P is_html
      → Keeps P (handle m is_html name)
  unfolding handle
  handle-Keeps m is_html name fails = record {
    keep = λ c p. elim (Option-cases (bind_error m name c)) [
      | inl fine ↦ rw (fine, handle) (respond-keep m is_html name c fails p)
      | inr (e, bad) ↦ rw (bad, handle) (fails m.unknown e c p)
    ];
  }

  pub handle_if-Keeps :
      (m : Module) (when : Context → Bool) (name : String) → Keeps P (handle_if m when name)
  unfolding handle_if
  handle_if-Keeps m when name = record { keep = λ c p. if_elim (when c) P (run c p) p }
    where
      run :
          (c : Context)
          → P c
          → P (elim (bind_error m name c) [
            | some e ↦ abort (fail m.unknown (map_http_error m.unknown e) false c)
            | none ↦ abort (respond m false name c)
          ])
      run c p = elim (Option-cases (bind_error m name c)) [
        | inl fine ↦
            rw fine (is.aborted (respond m false name c) (respond-keep m false name c is.fails p))
        | inr (e, bad) ↦ rw bad (
            is.aborted (fail m.unknown (map_http_error m.unknown e) false c)
              (is.fails m.unknown (map_http_error m.unknown e) c p))
      ]
