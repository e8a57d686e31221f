-- ===== src/FileRepo/Refine.antt =====
-- FindByField by an index answers as the scan of field.go does, in every state that the operations
-- of the repository reach.
use hexagonal_backend.Common.{
  String, ◌≡◌, refl, ap, ◌∙◌, inl, inr, Option, none, some, List, [], ◌∷◌, Bool-cases, Option-cases,
  arith, eq_iff,
}
use hexagonal_backend.Common.Text.{str_eq, str_eq_refl}
use hexagonal_backend.Common.Result.{ok, err, ◌>>=◌}
use hexagonal_backend.Errors.{not_found}
use hexagonal_backend.World.Map.{lookup}
use hexagonal_backend.FileRepo.{
  Model, Index, FileRepository, assign, build_index, index_item, find_in_index, find_by_field,
  no_index,
}
use hexagonal_backend.FileRepo.Field.{string_field_value, scan_by_field}
use hexagonal_backend.FileRepo.Keyed.{IsKeyed}
use hexagonal_backend.FileRepo.Indexes.{
  FieldIs, IsUnique, IsIndex, Holds, Holds-cons, IsUnique-tail, alone, build_index-IsIndex,
}

module _ {T D : Type 0} (model : Model T D) (field : String) where
  -- The field is a string or a pointer to one, so that reflection finds no fault with it.
  abbrev pub IsText : Type 0
  IsText = (item : T) → (o : Option String) × (string_field_value model.reflect item field ≡ ok o)

  -- The ids are distinct, the field is a key, and an index on it that is there is one.
  pub record IsReady (r : FileRepository T) : Type 0 where
    pub keyed : IsKeyed r.items
    pub unique : IsUnique model field r.items
    pub indexed :
        (index : Index) → r.indexed_fields field ≡ some index → IsIndex model field r.items index

  scan_of_none :
      (items : List (String × T)) (value : String)
      → IsText
      → IsKeyed items
      → ((id : String) → ¬ Holds model field items value id)
      → scan_by_field model.reflect items field value ≡ err not_found
  unfolding scan_by_field
  scan_of_none [] value text k h = refl
  scan_of_none ((first, x) ∷ rest) value text k h =
      let ih =
        scan_of_none rest value text k.1
          (λ id held. h id (Holds-cons model field first x rest value id k.0 held)) in
      let (o, is) = text x in
      elim (Option-cases o) [
        | inl e ↦ ground (arith, ih, is, e)
        | inr (v, e) ↦ elim (Bool-cases (str_eq v value)) [
          | inr differs ↦ ground (arith, ih, is, e, differs)
          | inl same ↦ absurd (
              h first (
                x,
                unfold lookup in rw (str_eq_refl first) refl,
                ground (arith, is, e, eq_iff v value, same),
              ))
        ]
      ]

  pub scan_of_some :
      (items : List (String × T)) (value id : String) (item : T)
      → IsText
      → IsKeyed items
      → IsUnique model field items
      → lookup id items ≡ some item
      → FieldIs model field item value
      → scan_by_field model.reflect items field value ≡ ok item
  unfolding scan_by_field
  scan_of_some [] value id item text k u found is = unfold lookup in cc
  scan_of_some ((first, x) ∷ rest) value id item text k u found is =
      elim (Bool-cases (str_eq first id)) [
        | inl here ↦ unfold lookup in ground (arith, found, here, is, str_eq_refl value)
        | inr later ↦
            let old : lookup id rest ≡ some item = unfold lookup in ground (arith, found, later) in
            let ih =
              scan_of_some rest value id item text k.1
                (IsUnique-tail model field first x rest k.0 u) old is in
            let (o, is_x) = text x in
            elim (Option-cases o) [
              | inl e ↦ ground (arith, ih, is_x, e)
              | inr (v, e) ↦ elim (Bool-cases (str_eq v value)) [
                | inr differs ↦ ground (arith, ih, is_x, e, differs)
                | inl same ↦ absurd (
                    alone model field first x rest value id k.0 u
                      (ground (arith, is_x, e, eq_iff v value, same)) (item, old, is))
              ]
            ]
      ]

  index_item_total :
      (id : String) (x : T) (old : Index) (o : Option String)
      → string_field_value model.reflect x field ≡ ok o
      → (added : Index) × (index_item model field id x old ≡ ok added)
  unfolding index_item
  index_item_total id x old none is = (old, rw (is, index_item) refl)
  index_item_total id x old (some value) is = (assign value (some id) old, rw (is, index_item) refl)

  pub build_index_total :
      (items : List (String × T)) (old : Index)
      → IsText
      → (index : Index) × (build_index model field items old ≡ ok index)
  unfolding build_index index_item
  build_index_total [] old text = (old, refl)
  build_index_total ((id, x) ∷ rest) old text =
      let (o, is) = text x in
      let (added, entered) = index_item_total id x old o is in
      let (index, built) = build_index_total rest added text in
      (index, ap (λ m. m >>= λ next. build_index model field rest next) entered ∙ built)

  -- With an index, a lookup answers as the scan does, and changes nothing.
  pub find_in_index_lem :
      (value : String) (index : Index) (r : FileRepository T)
      → IsText
      → IsKeyed r.items
      → IsUnique model field r.items
      → IsIndex model field r.items index
      → find_in_index model field value index r
        ≡ (scan_by_field model.reflect r.items field value, r)
  unfolding find_in_index
  find_in_index_lem value index r text k u ix = elim (Option-cases (index value)) [
    | inl absent ↦
        let none_has =
          scan_of_none r.items value text k
            (λ id held. ground (arith, absent, ix.complete value id held.0 held.1 held.2)) in
        rw (absent, none_has, find_in_index) refl
    | inr (id, known) ↦
        let (item, found, is) = ix.sound value id known in
        rw (known, found, scan_of_some r.items value id item text k u found is, find_in_index) refl
  ]

  -- FindByField, indexed or not, answers as the scan of the items does.
  pub find_by_field-scan :
      (value : String) (r : FileRepository T)
      → IsText
      → IsReady r
      → (find_by_field model field value r).0 ≡ scan_by_field model.reflect r.items field value
  unfolding find_by_field
  find_by_field-scan value r text v = elim (Option-cases (r.indexed_fields field)) [
    | inr (index, there) ↦
        rw (there, find_by_field)
          (ap (λ p. p.0)
            (find_in_index_lem value index r text v.keyed v.unique (v.indexed index there)))
    | inl absent ↦
        let (index, built) = build_index_total r.items no_index text in
        let r' = record r { indexed_fields = assign field (some index) r.indexed_fields } in
        rw (absent, built, find_by_field)
          (ap (λ p. p.0)
            (find_in_index_lem value index r' text v.keyed v.unique
              (build_index-IsIndex model field r.items index v.keyed v.unique built)))
  ]
