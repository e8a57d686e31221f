-- ===== src/FileRepo/Indexes/Update.antt =====
-- Keeping an index when an item is put.
use hexagonal_backend.Common.{
  String, ◌≡◌, sym, ap, ◌∙◌, ◌⊎◌, inl, inr, Option, none, some, List, Bool-cases, arith, false,
  eq_iff,
}
use hexagonal_backend.Common.Text.{str_eq, str_eq_refl}
use hexagonal_backend.Common.Result.{Result, ok, err}
use hexagonal_backend.World.Map.{lookup, insert}
use hexagonal_backend.FileRepo.{Model, Index, assign, update_index, enter, drop_id}
use hexagonal_backend.FileRepo.Field.{string_field_value}
use hexagonal_backend.FileRepo.Keyed.{
  lookup-insert-eq-some, lookup-insert_self, lookup-insert_other,
}
use hexagonal_backend.FileRepo.Indexes.{FieldIs, IsUnique, IsIndex}

enter-eq-some :
    (r : Result (Option String)) (id value j : String) (index : Index)
    → enter r id index value ≡ some j
    → ((j ≡ id) × (r ≡ ok (some value))) ⊎ (index value ≡ some j)
unfolding enter assign
enter-eq-some (err e) id value j index h = inr h
enter-eq-some (ok none) id value j index h = inr h
enter-eq-some (ok (some v)) id value j index h = elim (Bool-cases (str_eq v value)) [
  | inl same ↦ inl (ground (arith, h, same), ground (arith, eq_iff v value, same))
  | inr differs ↦ inr (ground (arith, h, differs))
]

enter_other :
    (r : Result (Option String)) (id value j : String) (index : Index)
    → index value ≡ some j
    → ¬ (r ≡ ok (some value))
    → enter r id index value ≡ some j
unfolding enter assign
enter_other (err e) id value j index h differs = h
enter_other (ok none) id value j index h differs = h
enter_other (ok (some v)) id value j index h differs = ground (arith, h, differs, eq_iff v value)

drop_id-eq-some :
    (id value j : String) (index : Index)
    → drop_id id index value ≡ some j
    → (index value ≡ some j) × (str_eq j id ≡ false)
unfolding drop_id
drop_id-eq-some id value j index h = ground (arith, h)

module _ {T D : Type 0} (model : Model T D) (field : String) where
  -- No other item has the value that this one has.
  abbrev pub IsFree : List (String × T) → String → T → Type 0
  IsFree items id item =
      (value other : String) (x : T)
      → FieldIs model field item value
      → lookup other items ≡ some x
      → FieldIs model field x value
      → other ≡ id

  pub insert-IsUnique :
      (items : List (String × T)) (id : String) (item : T)
      → IsUnique model field items
      → IsFree items id item
      → IsUnique model field (insert id item items)
  insert-IsUnique items id item u free a b value x y p q is is' =
      elim (lookup-insert-eq-some id a item x items p) [
        | inl (at_a, new_x) ↦ elim (lookup-insert-eq-some id b item y items q) [
          | inl (at_b, _) ↦ at_a ∙ sym at_b
          | inr (off_b, old_y) ↦ at_a ∙ sym (free value b y (rw (← new_x) is) old_y is')
        ]
        | inr (off_a, old_x) ↦ elim (lookup-insert-eq-some id b item y items q) [
          | inl (at_b, new_y) ↦ free value a x (rw (← new_y) is') old_x is ∙ sym at_b
          | inr (off_b, old_y) ↦ u a b value x y old_x old_y is is'
        ]
      ]

  update_index-eq-some :
      (id : String) (item : T) (index : Index) (value j : String)
      → update_index model id field item index value ≡ some j
      → ((j ≡ id) × FieldIs model field item value)
        ⊎ ((index value ≡ some j) × (str_eq j id ≡ false))
  unfolding update_index
  update_index-eq-some id item index value j h =
      elim (enter-eq-some (string_field_value model.reflect item field) id value j
        (drop_id id index) h) [
          | inl own ↦ inl own
          | inr kept ↦ inr (drop_id-eq-some id value j index kept)
        ]

  update_index_own :
      (id : String) (item : T) (index : Index) (value : String)
      → FieldIs model field item value
      → update_index model id field item index value ≡ some id
  unfolding update_index enter assign
  update_index_own id item index value is = ground (arith, is, str_eq_refl value)

  update_index_other :
      (id : String) (item : T) (index : Index) (value j : String)
      → index value ≡ some j
      → str_eq j id ≡ false
      → ¬ FieldIs model field item value
      → update_index model id field item index value ≡ some j
  unfolding update_index
  update_index_other id item index value j e differs no_is =
      enter_other (string_field_value model.reflect item field) id value j (drop_id id index)
        (unfold drop_id in ground (arith, e, differs)) no_is

  -- An index stays one when an item is put and the index is updated.
  pub update_index-IsIndex :
      (items : List (String × T)) (index : Index) (id : String) (item : T)
      → IsIndex model field items index
      → IsFree items id item
      → IsIndex model field (insert id item items) (update_index model id field item index)
  update_index-IsIndex items index id item h free = record {
    sound = λ value j e. elim (update_index-eq-some id item index value j e) [
      | inl (own, is) ↦ (item, rw own (lookup-insert_self id item items), is)
      | inr (known, differs) ↦
          let (x, found, is) = h.sound value j known in
          (x, lookup-insert_other id j item x items differs found, is)
    ];
    complete = λ value j x found is. elim (lookup-insert-eq-some id j item x items found) [
      | inl (own, new) ↦ update_index_own id item index value (rw (← new) is) ∙ ap some (sym own)
      | inr (differs, old) ↦
          update_index_other id item index value j (h.complete value j x old is)
            (ground (arith, differs, eq_iff id j, eq_iff j id))
            (λ is'. ground (arith, free value j x is' old is, differs, eq_iff id j))
    ];
  }
