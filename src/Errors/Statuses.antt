-- ===== src/Errors/Statuses.antt =====
-- The two columns of the code registry agree.
use hexagonal_backend.Common.{
  ◌≡◌, refl, Bool, true, false, not, ◌&&◌, ◌↔◌, Option, none, some, is_some, Bool-cases,
  Option-cases, ◌≢◌, inl, inr, sym, ap, ◌∙◌, List, [], ◌∷◌, ◌==◌, arith, eq_iff,
}
use hexagonal_backend.Common.Text.{is_empty, str_eq}
use hexagonal_backend.Errors.{ErrCode}
use hexagonal_backend.Errors.Registry.{
  CodeInfo, http_status_for, oauth2_code_for, member, lookup, server_error_codes, code_registry,
  fallback_code, status_of, shown_as, fallback_text,
}

unfoldable every_info : (CodeInfo → Bool) → List (ErrCode × CodeInfo) → Bool
every_info test [] = true
every_info test ((c, i) ∷ rest) = test i && every_info test rest

none_ne_some : {A : Type 0} {a : A} → none ≢ some a
none_ne_some h = absurd (ground (arith, h))

eqb→eq : (m n : ErrCode) → (m == n) ≡ true → m ≡ n
eqb→eq m n h = ground arith

every_info-lookup :
    (test : CodeInfo → Bool) (rows : List (ErrCode × CodeInfo)) (code : ErrCode) (i : CodeInfo)
    → every_info test rows ≡ true
    → lookup rows code ≡ some i
    → test i ≡ true
unfolding every_info lookup
every_info-lookup test [] code i h found = absurd (ground (arith, found))
every_info-lookup test ((c, j) ∷ rows) code i h found =
    ground (arith, h, found, every_info-lookup test rows code i)

-- A row of the registry is not shown as server_error.
abbrev not_server_error : CodeInfo → Bool
not_server_error i = not (is_empty i.oauth2) && not (str_eq i.oauth2 "server_error")

registry-not_server_error : every_info not_server_error code_registry ≡ true
unfolding every_info
registry-not_server_error = refl

unfoldable unregistered : List (ErrCode × CodeInfo) → List ErrCode → Bool
unfolding lookup
unregistered rows [] = true
unregistered rows (c ∷ codes) = not (is_some (lookup rows c)) && unregistered rows codes

none_of_not_some : {A : Type 0} (o : Option A) → not (is_some o) ≡ true → o ≡ none
none_of_not_some none h = refl
none_of_not_some (some a) h = absurd (ground (arith, h))

unregistered-member :
    (rows : List (ErrCode × CodeInfo)) (codes : List ErrCode) (code : ErrCode)
    → unregistered rows codes ≡ true
    → member codes code ≡ true
    → lookup rows code ≡ none
unfolding unregistered member
unregistered-member rows [] code h m = absurd (ground (arith, m))
unregistered-member rows (c ∷ codes) code h m = elim (Bool-cases (c == code)) [
  | inl same ↦ rw (sym (eqb→eq c code same)) (none_of_not_some (lookup rows c) (ground (arith, h)))
  | inr other ↦ unregistered-member rows codes code (ground (arith, h)) (ground (arith, m, other))
]

server_errors-unregistered : unregistered code_registry server_error_codes ≡ true
unfolding unregistered
server_errors-unregistered = refl

fallback_text_lem : (b : Bool) → (fallback_text b ≡ "server_error") ↔ (b ≡ true)
fallback_text_lem true = (λ h. refl, λ h. refl)
fallback_text_lem false =
    (λ h. ap (λ s. str_eq s "server_error") h, λ h. absurd (ground (arith, h)))

fallback_lem :
    (code : ErrCode)
    → (fallback_code code ≡ "server_error") ↔ (member server_error_codes code ≡ true)
unfolding fallback_code
fallback_lem code = fallback_text_lem (member server_error_codes code)

-- How a code is shown, once its row is known.
shown_lem :
    (code : ErrCode) (o : Option CodeInfo)
    → lookup code_registry code ≡ o
    → (oauth2_code_for code ≡ shown_as code o) × (http_status_for code ≡ status_of o)
unfolding oauth2_code_for http_status_for
shown_lem code o e = (ap (shown_as code) e, ap status_of e)

shown-row :
    (code : ErrCode) (i : CodeInfo)
    → not_server_error i ≡ true
    → shown_as code (some i) ≢ "server_error"
unfolding shown_as
shown-row code i named h = ground (arith, named, h, eq_iff i.oauth2 "server_error")

-- A code is shown as server_error exactly if it is one of the server errors, and then its status
-- is 500.
pub server_error_codes_agree :
    (code : ErrCode)
    → ((oauth2_code_for code ≡ "server_error") ↔ (member server_error_codes code ≡ true))
      × (oauth2_code_for code ≡ "server_error" → http_status_for code ≡ 500)
unfolding shown_as status_of
server_error_codes_agree code = elim (Option-cases (lookup code_registry code)) [
  | inl e ↦
      let shown = shown_lem code none e in
      (
        (λ h. (fallback_lem code).0 (sym shown.0 ∙ h), λ m. shown.0 ∙ (fallback_lem code).1 m),
        λ h. shown.1,
      )
  | inr (i, e) ↦
      let row =
        shown-row code i
          (every_info-lookup not_server_error code_registry code i registry-not_server_error e) in
      let shown = shown_lem code (some i) e in
      (
        (
          λ h. absurd (row (sym shown.0 ∙ h)),
          λ m. absurd (
              none_ne_some (
                sym (
                  unregistered-member code_registry server_error_codes code
                    server_errors-unregistered m)
                ∙ e)),
        ),
        λ h. absurd (row (sym shown.0 ∙ h)),
      )
]
