-- ===== src/FileRepo/Reopened.antt =====
-- Opening the repository on a file that was written from items.
use hexagonal_backend.Common.{
  String, ◌≡◌, ◌≢◌, refl, sym, ap, ◌∙◌, inl, inr, true, false, Option, none, some, List, [], ◌∷◌,
  Option-cases, arith, eq_iff,
}
use hexagonal_backend.Common.Result.{Result, ok, err, is_ok}
use hexagonal_backend.World.Map.{lookup}
use hexagonal_backend.FileRepo.{
  Model, FileRepository, entities, load_from_file, new_repository, docs_of,
}
use hexagonal_backend.FileRepo.Keyed.{IsKeyed}

-- Two association lists stand for one map.
pub record SameMap {A : Type 0} (one other : List (String × A)) : Type 0 where
  pub keyed : IsKeyed other
  pub agree : (id : String) → lookup id other ≡ lookup id one

-- The codec of a map of documents: what was encoded is decoded to the same map, in any order.
abbrev pub IsCodec : {T D : Type 0} → Model T D → Type 0
IsCodec {T} {D} model =
    (docs : List (String × D)) (content : String)
    → IsKeyed docs
    → model.encode docs ≡ some content
    → (docs' : List (String × D)) × (model.decode content ≡ some docs') × SameMap docs docs'

abbrev pub AllStorable : {T : Type 0} → (T → Type 0) → List (String × T) → Type 0
AllStorable Storable [] = Unit {0}
AllStorable Storable ((id, item) ∷ rest) = Storable item × AllStorable Storable rest

module _ {T D : Type 0} (model : Model T D) where
  -- A repository opened on the file has these items, in some order.
  abbrev pub Holds : Option String → List (String × T) → Type 0
  Holds file items =
      (tmp : Option String)
      → (r : FileRepository T) × (new_repository model false (record { file = file; tmp = tmp })
          ≡ ok r)
        × SameMap items r.items

  value_of : Result T → Option T
  value_of (ok item) = some item
  value_of (err e) = none

  converted : Option D → Option T
  unfolding value_of
  converted none = none
  converted (some doc) = value_of (model.to_entity doc)

  -- The loop of New keeps the keys, and converts each document.
  abbrev Converted : List (String × D) → List (String × T) → Type 0
  Converted docs items =
      (entities model docs ≡ ok items)
      × IsKeyed items
      × ((id : String) → lookup id items ≡ converted (lookup id docs))

  entities-Converted :
      (docs : List (String × D))
      → IsKeyed docs
      → ((id : String) (doc : D) → lookup id docs ≡ some doc → is_ok (model.to_entity doc) ≡ true)
      → (items : List (String × T)) × Converted docs items
  unfolding entities converted value_of lookup
  entities-Converted [] k good = ([], (refl, tt, λ id. refl))
  entities-Converted ((key, doc) ∷ rest) k good =
      by_doc (model.to_entity doc) refl (good key doc (ground (arith, eq_iff key key))) (
        entities-Converted rest k.1
          (λ id d found. good id d (ground (arith, found, k.0, eq_iff key id))))
    where
      by_doc :
          (r : Result T)
          → model.to_entity doc ≡ r
          → is_ok (model.to_entity doc) ≡ true
          → (items : List (String × T)) × Converted rest items
          → (items : List (String × T)) × Converted ((key, doc) ∷ rest) items
      by_doc (err e) there good' later = absurd (ground (arith, there, good'))
      by_doc (ok item) there good' (items, (opened, keyed, same)) = (
        (key, item) ∷ items,
        (
          rw (there, opened) refl,
          (same key ∙ ap converted k.0, keyed),
          λ id. ground (arith, there, same id),
        ),
      )

  -- The items that their documents give back.
  module _ (Storable : T → Type 0)
      (converts : (item : T) → Storable item → model.to_entity (model.to_doc item) ≡ ok item) where
    converted-docs_of :
        (items : List (String × T)) (id : String)
        → AllStorable Storable items
        → converted (lookup id (docs_of model items)) ≡ lookup id items
    unfolding converted value_of lookup
    converted-docs_of [] id s = refl
    converted-docs_of ((key, item) ∷ rest) id s =
        ground (arith, converts item s.0, converted-docs_of rest id s.1)

    docs_of-converts :
        (items : List (String × T)) (id : String) (doc : D)
        → AllStorable Storable items
        → lookup id (docs_of model items) ≡ some doc
        → is_ok (model.to_entity doc) ≡ true
    unfolding lookup
    docs_of-converts [] id doc s found = absurd (ground (arith, found))
    docs_of-converts ((key, item) ∷ rest) id doc s found =
        ground (arith, found, converts item s.0, docs_of-converts rest id doc s.1)

    lookup-docs_of :
        (items : List (String × T)) (id : String)
        → lookup id items ≡ none
        → lookup id (docs_of model items) ≡ none
    unfolding lookup
    lookup-docs_of [] id h = refl
    lookup-docs_of ((key, item) ∷ rest) id h = ground (arith, h, lookup-docs_of rest id)

    docs_of-IsKeyed : (items : List (String × T)) → IsKeyed items → IsKeyed (docs_of model items)
    docs_of-IsKeyed [] k = tt
    docs_of-IsKeyed ((key, item) ∷ rest) k = (lookup-docs_of rest key k.0, docs_of-IsKeyed rest k.1)

    -- The file that is written from items holds them.
    pub encoded-Holds :
        (codec : IsCodec model) (items : List (String × T))
        → IsKeyed items
        → AllStorable Storable items
        → model.encode (docs_of model items) ≢ none
        → Holds (model.encode (docs_of model items)) items
    unfolding new_repository load_from_file
    encoded-Holds codec items k s h tmp = elim (Option-cases (model.encode (docs_of model items))) [
      | inl e ↦ absurd (h e)
      | inr (content, e) ↦
          let (docs, decoded, map) =
            codec (docs_of model items) content (docs_of-IsKeyed items k) e in
          let (read, (opened, keyed, same)) =
            entities-Converted docs map.keyed
              (λ id doc found. docs_of-converts items id doc s (sym (map.agree id) ∙ found)) in
          (
            record {
              items = read;
              indexed_fields = λ field. none;
              disk = record { file = model.encode (docs_of model items); tmp = tmp };
            },
            rw (e, decoded, opened) refl,
            record {
              keyed = keyed;
              agree = λ id. same id ∙ ap converted (map.agree id) ∙ converted-docs_of items id s;
            },
          )
    ]
