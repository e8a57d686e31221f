-- ===== src/FileRepo/Indexes.antt =====
-- What an index of the file repository is, and the loop that builds it.
pub mod Update
use hexagonal_backend.Common.{
  String, ◌≡◌, refl, sym, ap, ◌∙◌, ◌⊎◌, inl, inr, Option, none, some, List, [], ◌∷◌, Bool-cases,
  arith, if◌then◌else◌, false, eq_iff,
}
use hexagonal_backend.Common.Text.{str_eq, str_eq_refl, str_eq→eq}
use hexagonal_backend.Common.Result.{Result, ok, err, >>=-eq-ok}
use hexagonal_backend.World.Map.{lookup, insert, lookup-insert}
use hexagonal_backend.FileRepo.{
  Model, Index, assign, build_index, update_index, no_index, index_item, enter, drop_id,
}
use hexagonal_backend.FileRepo.Field.{string_field_value}
use hexagonal_backend.FileRepo.Keyed.{IsKeyed, lookup-cons}

module _ {T D : Type 0} (model : Model T D) (field : String) where
  -- The item has a text in the field, and it is `value`.
  abbrev pub FieldIs : T → String → Type 0
  FieldIs item value = string_field_value model.reflect item field ≡ ok (some value)

  -- No two items share a value of the field.
  abbrev pub IsUnique : List (String × T) → Type 0
  IsUnique items =
      (a b value : String) (x y : T)
      → lookup a items ≡ some x
      → lookup b items ≡ some y
      → FieldIs x value
      → FieldIs y value
      → a ≡ b

  -- The index leads from each value to the item that has it, and from no other value.
  pub record IsIndex (items : List (String × T)) (index : Index) : Type 0 where
    pub sound :
        (value id : String)
        → index value ≡ some id
        → (item : T) × (lookup id items ≡ some item) × FieldIs item value
    pub complete :
        (value id : String) (item : T)
        → lookup id items ≡ some item
        → FieldIs item value
        → index value ≡ some id

  index_item-eq-ok :
      (id : String) (x : T) (old added : Index)
      → index_item model field id x old ≡ ok added
      → ((value : String) × FieldIs x value × (added ≡ assign value (some id) old))
        ⊎ ((string_field_value model.reflect x field ≡ ok none) × (added ≡ old))
  unfolding index_item
  index_item-eq-ok id x old added = by_value (string_field_value model.reflect x field) refl
    where
      by_value :
          (r : Result (Option String))
          → string_field_value model.reflect x field ≡ r
          → index_item model field id x old ≡ ok added
          → ((value : String) × FieldIs x value × (added ≡ assign value (some id) old))
            ⊎ ((string_field_value model.reflect x field ≡ ok none) × (added ≡ old))
      by_value (err e) p h = absurd (ground (arith, p, h))
      by_value (ok none) p h = inr (p, ground (arith, p, h))
      by_value (ok (some value)) p h = inl (value, p, ground (arith, p, h))

  abbrev pub Holds : List (String × T) → String → String → Type 0
  Holds items value id = (item : T) × (lookup id items ≡ some item) × FieldIs item value

  pub Holds-cons :
      (first : String) (x : T) (rest : List (String × T)) (value id : String)
      → lookup first rest ≡ none
      → Holds rest value id
      → Holds ((first, x) ∷ rest) value id
  Holds-cons first x rest value id fresh (item, found, is) =
      (item, lookup-cons first id x item rest fresh found, is)

  -- Every id that building an index has put under a value is an item's with that value.
  build_index_sound :
      (items : List (String × T)) (old index : Index)
      → IsKeyed items
      → build_index model field items old ≡ ok index
      → (value id : String) → index value ≡ some id
      → (old value ≡ some id) ⊎ Holds items value id
  unfolding build_index lookup assign
  build_index_sound [] old index k e value id h = inl (ground (arith, e, h))
  build_index_sound ((first, x) ∷ rest) old index k e value id h =
      let (added, entered, built) =
        >>=-eq-ok (index_item model field first x old) (λ added. build_index model field rest added)
          e in
      elim (build_index_sound rest added index k.1 built value id h) [
        | inr found ↦ inr (Holds-cons first x rest value id k.0 found)
        | inl known ↦ elim (index_item-eq-ok first x old added entered) [
          | inr (absent, same) ↦ inl (sym (ap (λ m. m value) same) ∙ known)
          | inl (v, is, same) ↦ entry v is (sym (ap (λ m. m value) same) ∙ known)
        ]
      ]
    where
      entry :
          (v : String)
          → FieldIs x v
          → (if str_eq v value then some first else old value) ≡ some id
          → (old value ≡ some id) ⊎ Holds ((first, x) ∷ rest) value id
      entry v is e' = elim (Bool-cases (str_eq v value)) [
        | inr differs ↦ inl (rw differs at e')
        | inl same ↦
            inr (
              x,
              ground (arith, e', same, eq_iff first id),
              ground (arith, is, eq_iff v value, same),
            )
      ]

  pub IsUnique-tail :
      (first : String) (x : T) (rest : List (String × T))
      → lookup first rest ≡ none
      → IsUnique ((first, x) ∷ rest)
      → IsUnique rest
  IsUnique-tail first x rest fresh u a b value y z p q =
      u a b value y z (lookup-cons first a x y rest fresh p) (lookup-cons first b x z rest fresh q)

  -- A value that no item has is under the id that it was under.
  build_index-frame :
      (items : List (String × T)) (old index : Index)
      → IsKeyed items
      → build_index model field items old ≡ ok index
      → (value : String) → ((id : String) → Holds items value id → ⊥)
      → index value ≡ old value
  unfolding build_index assign
  build_index-frame [] old index k e value h = ground (arith, e)
  build_index-frame ((first, x) ∷ rest) old index k e value h =
      let (added, entered, built) =
        >>=-eq-ok (index_item model field first x old) (λ added. build_index model field rest added)
          e in
      build_index-frame rest added index k.1 built value
        (λ id held. h id (Holds-cons first x rest value id k.0 held))
      ∙ elim (index_item-eq-ok first x old added entered) [
        | inr (absent, same) ↦ ap (λ m. m value) same
        | inl (v, is, same) ↦ ap (λ m. m value) same ∙ elim (Bool-cases (str_eq v value)) [
          | inr differs ↦ rw differs
          | inl equal ↦ absurd (
              h first (
                x,
                unfold lookup in rw (str_eq_refl first) refl,
                ground (arith, is, eq_iff v value, equal),
              ))
        ]
      ]

  pub alone :
      (first : String) (x : T) (rest : List (String × T)) (value j : String)
      → lookup first rest ≡ none
      → IsUnique ((first, x) ∷ rest)
      → FieldIs x value
      → Holds rest value j
      → ⊥
  alone first x rest value j fresh u is (y, found, is') =
      let same : first ≡ j =
        u first j value x y (unfold lookup in rw (str_eq_refl first) refl)
          (lookup-cons first j x y rest fresh found) is is' in
      ground (arith, fresh, found, same)

  -- Building an index puts every value that an item has under the item's id.
  build_index_complete :
      (items : List (String × T)) (old index : Index)
      → IsKeyed items
      → IsUnique items
      → build_index model field items old ≡ ok index
      → (value id : String) → Holds items value id
      → index value ≡ some id
  unfolding build_index assign
  build_index_complete [] old index k u e value id (item, found, is) = unfold lookup in cc
  build_index_complete ((first, x) ∷ rest) old index k u e value id (item, found, is) =
      let (added, entered, built) =
        >>=-eq-ok (index_item model field first x old) (λ added. build_index model field rest added)
          e in
      elim (Bool-cases (str_eq first id)) [
        | inr later ↦
            build_index_complete rest added index k.1 (IsUnique-tail first x rest k.0 u) built value
              id (item, unfold lookup in ground (arith, found, later), is)
        | inl here ↦
            build_index-frame rest added index k.1 built value (λ j held.
              alone first x rest value j k.0 u (unfold lookup in ground (arith, is, found, here))
                held)
            ∙ elim (index_item-eq-ok first x old added entered) [
              | inr (absent, same) ↦
                  absurd (unfold lookup in ground (arith, absent, is, found, here))
              | inl (v, is', same) ↦
                  ap (λ m. m value) same
                  ∙ (unfold lookup in
                      ground (arith, is', is, found, here, eq_iff v value, eq_iff first id))
            ]
      ]

  pub build_index-IsIndex :
      (items : List (String × T)) (index : Index)
      → IsKeyed items
      → IsUnique items
      → build_index model field items no_index ≡ ok index
      → IsIndex items index
  build_index-IsIndex items index k u e = record {
    sound = λ value id h. elim (build_index_sound items no_index index k e value id h) [
      | inl impossible ↦ absurd (cc)
      | inr held ↦ held
    ];
    complete = λ value id item found is.
        build_index_complete items no_index index k u e value id (item, found, is);
  }
