-- ===== src/Errors/Challenge.antt =====
-- Every error code is shown with a status and an OAuth2 code, and one of them asks for credentials.
use hexagonal_backend.Common.{
  ◌≡◌, refl, sym, Bool, true, false, not, ◌&&◌, none, some, inl, inr, Bool-cases, Option-cases,
  List, [], ◌∷◌, ◌==◌, arith, eq_iff,
}
use hexagonal_backend.Common.Text.{is_empty, str_eq}
use hexagonal_backend.Errors.{ErrCode, invalid_client}
use hexagonal_backend.Errors.Registry.{
  CodeInfo, http_status_for, oauth2_code_for, lookup, code_registry, fallback_code, status_of,
  shown_as, fallback_text, member, server_error_codes,
}

unfoldable every_row : (ErrCode → CodeInfo → Bool) → List (ErrCode × CodeInfo) → Bool
every_row test [] = true
every_row test ((c, i) ∷ rest) = test c i && every_row test rest

eqb→eq : (m n : ErrCode) → (m == n) ≡ true → m ≡ n
eqb→eq m n h = ground arith

every_row-lookup :
    (test : ErrCode → CodeInfo → Bool) (rows : List (ErrCode × CodeInfo)) (code : ErrCode)
    (i : CodeInfo)
    → every_row test rows ≡ true
    → lookup rows code ≡ some i
    → test code i ≡ true
unfolding every_row lookup
every_row-lookup test [] code i h found = absurd (ground (arith, found))
every_row-lookup test ((c, j) ∷ rows) code i h found = elim (Bool-cases (c == code)) [
  | inl same ↦ rw (sym (eqb→eq c code same)) (ground (arith, h, found, same))
  | inr other ↦ every_row-lookup test rows code i (ground (arith, h)) (ground (arith, found, other))
]

abbrev challenges : CodeInfo → Bool
challenges i = str_eq i.oauth2 "invalid_client" && (i.http_status == 401)

abbrev same_bool : Bool → Bool → Bool
same_bool true b = b
same_bool false b = not b

abbrev well_shown : ErrCode → CodeInfo → Bool
well_shown c i =
    not (is_empty i.oauth2)
    && (not (i.http_status == 0) && same_bool (challenges i) (c == invalid_client))

registry-well_shown : every_row well_shown code_registry ≡ true
unfolding every_row
registry-well_shown = refl

-- What is shown for a code: a status, an OAuth2 code, and a challenge only for invalid_client.
pub record IsShown (c : ErrCode) : Type 0 where
  pub status : (http_status_for c == 0) ≡ false
  pub named : is_empty (oauth2_code_for c) ≡ false
  pub challenge :
      (str_eq (oauth2_code_for c) "invalid_client" && (http_status_for c == 401))
      ≡ (c == invalid_client)

same_bool-eq : (a b : Bool) → same_bool a b ≡ true → a ≡ b
same_bool-eq true true h = refl
same_bool-eq true false h = cc
same_bool-eq false true h = cc
same_bool-eq false false h = refl

and_last : (a b c : Bool) → a && (b && c) ≡ true → c ≡ true
and_last true true c h = h
and_last true false c h = absurd (cc)
and_last false b c h = absurd (cc)

fallback_text-named : (b : Bool) → is_empty (fallback_text b) ≡ false
fallback_text-named true = refl
fallback_text-named false = refl

fallback_text-unchallenged : (b : Bool) → str_eq (fallback_text b) "invalid_client" ≡ false
fallback_text-unchallenged true = refl
fallback_text-unchallenged false = refl

registered_client : (c : ErrCode) → lookup code_registry c ≡ none → (c == invalid_client) ≡ false
unfolding lookup
registered_client c h = elim (Bool-cases (c == invalid_client)) [
  | inr other ↦ other
  | inl same ↦ absurd (
      let there : lookup code_registry invalid_client ≡ none =
        (rw (eqb→eq c invalid_client same) at h) in
      cc)
]

pub code-IsShown : (c : ErrCode) → IsShown c
unfolding http_status_for oauth2_code_for shown_as status_of
code-IsShown c = elim (Option-cases (lookup code_registry c)) [
  | inl absent ↦ record {
    status = rw absent refl;
    named = rw absent (unfold fallback_code in fallback_text-named (member server_error_codes c));
    challenge = rw absent (
        unfold fallback_code in
        ground (
          arith,
          fallback_text-unchallenged (member server_error_codes c),
          registered_client c absent,
        ));
  }
  | inr (i, there) ↦
      let shown : well_shown c i ≡ true =
        every_row-lookup well_shown code_registry c i registry-well_shown there in
      record {
        status = rw there (ground (arith, shown));
        named = rw there (ground (arith, shown, eq_iff i.oauth2 ""));
        challenge =
            let named : is_empty i.oauth2 ≡ false = ground (arith, shown) in
            rw (there, named)
              (same_bool-eq (challenges i) (c == invalid_client) (and_last _ _ _ shown));
      }
]
