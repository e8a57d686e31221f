-- ===== src/FileRepo/Tables.antt =====
-- The items of the file repository as the tables of rows on which the use cases are modelled.
use hexagonal_backend.Common.{
  String, ◌≡◌, refl, ◌∙◌, Option, none, some, List, [], ◌∷◌, map, Bool-cases, inl, inr, arith,
}
use hexagonal_backend.Common.Text.{str_eq}
use hexagonal_backend.Common.Result.{Result, ok, err}
use hexagonal_backend.Errors.{not_found}
use hexagonal_backend.World.Map.{insert}
use hexagonal_backend.World.Stores.{find_row, upsert}
use hexagonal_backend.FileRepo.{Model, FileRepository, find_by_field, save, commit, write_items}
use hexagonal_backend.FileRepo.WriteFile.{Attempt}
use hexagonal_backend.FileRepo.Field.{FieldKind, scan_by_field, string_field_value, string_of_kind}
use hexagonal_backend.FileRepo.Reach.Steps.{Reachable, Reachable-find_by_field}

module _ {T D : Type 0} (model : Model T D) where
  abbrev pub rows_of : List (String × T) → List T
  rows_of = map (λ entry. entry.1)

  -- Each item stands under its own id.
  abbrev pub IsById : List (String × T) → Type 0
  IsById [] = Unit {0}
  IsById ((id, item) ∷ rest) = (id ≡ model.get_id item) × IsById rest

  abbrev pub found_or : Option T → Result T
  found_or none = err not_found
  found_or (some item) = ok item

  scan_by_field-find_row :
      (field : String) (get : T → String) (items : List (String × T)) (value : String)
      → ((item : T) → model.reflect field item ≡ FieldKind.text (get item))
      → scan_by_field model.reflect items field value
        ≡ found_or (find_row (λ item. str_eq (get item) value) (rows_of items))
  unfolding scan_by_field string_field_value string_of_kind find_row
  scan_by_field-find_row field get [] value h = refl
  scan_by_field-find_row field get ((id, item) ∷ rest) value h =
      ground (arith, h item, scan_by_field-find_row field get rest value h)

  -- In every state that calls lead to from New, FindByField on a string field finds the row that the
  -- table's lookup finds, under the conditions of Reachable.
  pub Reachable-find_row :
      (field : String) (get : T → String) (r : FileRepository T) (value : String)
      → ((item : T) → model.reflect field item ≡ FieldKind.text (get item))
      → Reachable model field r
      → (find_by_field model field value r).0
        ≡ found_or (find_row (λ item. str_eq (get item) value) (rows_of r.items))
  unfolding string_field_value string_of_kind
  Reachable-find_row field get r value h reached =
      Reachable-find_by_field model field value (λ item. (some (get item), rw (h item) refl))
        reached
      ∙ scan_by_field-find_row field get r.items value h

  rows_of-insert :
      (item : T) (items : List (String × T))
      → IsById items
      → rows_of (insert (model.get_id item) item items) ≡ upsert model.get_id item (rows_of items)
  unfolding insert upsert
  rows_of-insert item [] h = refl
  rows_of-insert item ((id, old) ∷ rest) h = ground (arith, h.0, rows_of-insert item rest h.1)

  insert-IsById :
      (item : T) (items : List (String × T))
      → IsById items
      → IsById (insert (model.get_id item) item items)
  unfolding insert
  insert-IsById item [] h = (refl, tt)
  insert-IsById item ((id, old) ∷ rest) h = elim (Bool-cases (str_eq id (model.get_id item))) [
    | inl same ↦ rw same (refl, h.1)
    | inr differs ↦ rw differs (h.0, insert-IsById item rest h.1)
  ]

  -- Save, where each item stands under its own id: it stays so, and when the write succeeds the rows
  -- are those of the table's Save, when it fails the rows are as they were.
  pub save-upsert :
      (a : Attempt) (item : T) (r : FileRepository T)
      → IsById r.items
      → let (saved, r') = save model a item r in
        IsById r'.items
        × (rows_of r'.items ≡ elim saved [
          | ok u ↦ upsert model.get_id item (rows_of r.items)
          | err e ↦ rows_of r.items
        ])
  unfolding save commit
  save-upsert a item r h =
      by_write (write_items model a (insert (model.get_id item) item r.items) r.disk).0 refl
    where
      by_write :
          (w : Result (Unit {0}))
          → (write_items model a (insert (model.get_id item) item r.items) r.disk).0 ≡ w
          → IsById (save model a item r).1.items
            × (rows_of (save model a item r).1.items ≡ elim (save model a item r).0 [
              | ok u ↦ upsert model.get_id item (rows_of r.items)
              | err e ↦ rows_of r.items
            ])
      by_write (err e) w = rw (w, save, commit) (h, refl)
      by_write (ok u) w =
          rw (w, save, commit) (insert-IsById item r.items h, rows_of-insert item r.items h)
