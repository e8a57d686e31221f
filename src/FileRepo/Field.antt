-- ===== src/FileRepo/Field.antt =====
-- infrastructure/repository/file/field.go: the text of a field, read by reflection, and the search
-- without an index.
use hexagonal_backend.Common.{String, Option, none, some, List, [], ◌∷◌, if◌then◌else◌}
use hexagonal_backend.Common.Text.{str_eq}
use hexagonal_backend.Common.Result.{Result, ok, err}
use hexagonal_backend.Errors.{Error, not_found, plain}

-- What reflect.Value.FieldByName finds: no field, a string, a nil pointer, a pointer to a string,
-- a pointer to something else, or a field of another kind.
pub data FieldKind : Type 0 where
  missing nil_pointer pointer_to_other other : FieldKind
  text pointer_to_text : String → FieldKind

-- NewErrInvalidField
abbrev pub err_invalid_field : Error
err_invalid_field = plain "repository: invalid field"

-- The switch of stringFieldValue; `none` is its ok = false.
unfoldable pub string_of_kind : FieldKind → Result (Option String)
string_of_kind FieldKind.missing = err err_invalid_field
string_of_kind (FieldKind.text value) = ok (some value)
string_of_kind FieldKind.nil_pointer = ok none
string_of_kind (FieldKind.pointer_to_text value) = ok (some value)
string_of_kind FieldKind.pointer_to_other = err err_invalid_field
string_of_kind FieldKind.other = err err_invalid_field

module _ {T : Type 0} (reflect : String → T → FieldKind) where
  -- stringFieldValue
  unfoldable pub string_field_value : T → String → Result (Option String)
  unfolding string_of_kind
  string_field_value item field = string_of_kind (reflect field item)

  -- FindByField of field.go: a scan of the items.
  unfoldable pub scan_by_field : List (String × T) → String → String → Result T
  unfolding string_field_value
  scan_by_field [] field value = err not_found
  scan_by_field ((id, item) ∷ rest) field value =
      let others = scan_by_field rest field value in
      elim (string_field_value item field) [
        | err e ↦ err e
        | ok none ↦ others
        | ok (some found) ↦ if str_eq found value then ok item else others
      ]
