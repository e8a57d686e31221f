-- ===== src/FileRepo.antt =====
-- infrastructure/repository/file/file_repository.go: the state of FileRepository and its operations.
-- A map that is ranged over (the items) is an association list in some order; an index, and the map
-- of the indexes, are functions. The operations hold the lock throughout, so they are one step each.
pub mod WriteFile
pub mod Field
pub mod Keyed
pub mod Indexes
pub mod Refine
pub mod Reach
pub mod Reopened
pub mod Durable
pub mod Tables
use hexagonal_backend.Common.{
  String, Bool, true, false, Option, none, some, List, [], ◌∷◌, map, if◌then◌else◌, ◌||◌, not,
  is_some,
}
use hexagonal_backend.Common.Text.{str_eq}
use hexagonal_backend.Common.Result.{Result, ok, err, ◌>>=◌}
use hexagonal_backend.Errors.{Error, not_found, conflict, is_not_found, backend}
use hexagonal_backend.World.Map.{lookup, insert}
use WriteFile.{Disk, Attempt, write_to_file}
use Field.{FieldKind, string_field_value}

-- What New is given, reflection on the item's type, and the JSON codec of a map of documents.
pub record Model (T D : Type 0) : Type 0 where
  pub get_id : T → String
  pub to_doc : T → D
  pub to_entity : D → Result T
  pub reflect : String → T → FieldKind
  pub encode : List (String × D) → Option String
  pub decode : String → Option (List (String × D))

-- map[string]string
abbrev pub Index : Type 0
Index = String → Option String

abbrev pub no_index : Index
no_index value = none

pub record FileRepository (T : Type 0) : Type 0 where
  pub items : List (String × T)
  pub indexed_fields : String → Option Index
  pub disk : Disk

-- m[k] = v, and with `none` delete(m, k)
unfoldable pub assign : {A : Type 0} → String → Option A → (String → Option A) → String → Option A
assign key value m k = if str_eq key k then value else m k

-- The inner loop of updateIndexesForItem: every value that leads to the id is deleted.
unfoldable pub drop_id : String → Index → Index
drop_id id index value = elim (index value) [
  | none ↦ none
  | some i ↦ if str_eq i id then none else some i
]

-- index[value] = id, where the field has a text
unfoldable pub enter : Result (Option String) → String → Index → Index
unfolding assign
enter (ok (some value)) id index = assign value (some id) index
enter (ok none) id index = index
enter (err e) id index = index

-- The system calls of NewFileStore that may fail.
pub record StoreFaults : Type 0 where
  pub mkdir_fails : Bool
  pub create_fails : Bool
  pub encode_fails : Bool

module _ {T D : Type 0} (model : Model T D) where
  -- NewFileStore: a file that is there is kept.
  unfoldable pub new_file_store : StoreFaults → Disk → Result (Unit {0}) × Disk
  new_file_store faults d =
      if is_some d.file
      then (ok tt, d)
      else if faults.mkdir_fails || faults.create_fails
      then (err backend, d)
      else if faults.encode_fails
      then (err backend, record d { file = some "" })
      else (ok tt, record d { file = model.encode [] })

  -- loadFromFile
  unfoldable pub load_from_file : Bool → Disk → Result (List (String × D))
  load_from_file open_fails d = if open_fails then err backend else elim d.file [
    | none ↦ err backend
    | some content ↦ elim (model.decode content) [ some docs ↦ ok docs | none ↦ err backend ]
  ]

  -- The loop of New.
  unfoldable pub entities : List (String × D) → Result (List (String × T))
  entities [] = ok []
  entities ((id, doc) ∷ rest) =
      model.to_entity doc >>= λ item. entities rest >>= λ items. ok ((id, item) ∷ items)

  -- New
  unfoldable pub new_repository : Bool → Disk → Result (FileRepository T)
  unfolding load_from_file entities
  new_repository open_fails d = load_from_file open_fails d >>= λ docs. entities docs >>= λ items.
      ok (record { items = items; indexed_fields = λ field. none; disk = d })

  abbrev pub docs_of : List (String × T) → List (String × D)
  docs_of = map (λ entry. (entry.0, model.to_doc entry.1))

  -- The body of the loop of buildIndex.
  unfoldable pub index_item : String → String → T → Index → Result Index
  unfolding string_field_value assign
  index_item field id item index = elim (string_field_value model.reflect item field) [
    | err e ↦ err e
    | ok none ↦ ok index
    | ok (some value) ↦ ok (assign value (some id) index)
  ]

  -- buildIndex
  unfoldable pub build_index : String → List (String × T) → Index → Result Index
  unfolding index_item
  build_index field [] index = ok index
  build_index field ((id, item) ∷ rest) index =
      index_item field id item index >>= λ added. build_index field rest added

  -- The body of the loop of updateIndexesForItem.
  unfoldable pub update_index : String → String → T → Index → Index
  unfolding string_field_value drop_id enter
  update_index id field item index =
      enter (string_field_value model.reflect item field) id (drop_id id index)

  -- updateIndexesForItem
  unfoldable pub update_indexes : String → T → (String → Option Index) → String → Option Index
  unfolding update_index
  update_indexes id item indexed field = elim (indexed field) [
    | none ↦ none
    | some index ↦ some (update_index id field item index)
  ]

  -- rebuildIndexes
  unfoldable pub rebuild_indexes :
      List (String × T) → (String → Option Index) → String → Option Index
  unfolding build_index
  rebuild_indexes items indexed field = elim (indexed field) [
    | none ↦ none
    | some old ↦ elim (build_index field items no_index) [ ok index ↦ some index | err e ↦ none ]
  ]

  -- The end of findByFieldLocked, once there is an index; an id that is no item's is forgotten.
  unfoldable pub find_in_index :
      String → String → Index → FileRepository T → Result T × FileRepository T
  unfolding assign lookup
  find_in_index field value index r = elim (index value) [
    | none ↦ (err not_found, r)
    | some id ↦ elim (lookup id r.items) [
      | some item ↦ (ok item, r)
      | none ↦
          let fewer : Index = assign value none index in
          (err not_found, record r { indexed_fields = assign field (some fewer) r.indexed_fields })
    ]
  ]

  -- findByFieldLocked, which is FindByField
  unfoldable pub find_by_field : String → String → FileRepository T → Result T × FileRepository T
  unfolding find_in_index build_index assign
  find_by_field field value r = elim (r.indexed_fields field) [
    | some index ↦ find_in_index field value index r
    | none ↦ elim (build_index field r.items no_index) [
      | err e ↦ (err e, r)
      | ok index ↦
          find_in_index field value index
            (record r { indexed_fields = assign field (some index) r.indexed_fields })
    ]
  ]

  -- writeItems
  unfoldable pub write_items : Attempt → List (String × T) → Disk → Result (Unit {0}) × Disk
  unfolding write_to_file
  write_items a items d = write_to_file (record a { encoded = model.encode (docs_of items) }) d

  -- writeItemsWith, and on success items[id] = item and updateIndexesForItem
  unfoldable pub commit :
      Attempt → String → T → FileRepository T → Result (Unit {0}) × FileRepository T
  unfolding write_items update_indexes insert
  commit a id item r =
      let next = insert id item r.items in
      let (written, disk) = write_items a next r.disk in
      elim written [
        | err e ↦ (err e, record r { disk = disk })
        | ok u ↦ (
          ok u,
          record {
            items = next;
            indexed_fields = update_indexes id item r.indexed_fields;
            disk = disk;
          },
        )
      ]

  -- Save
  unfoldable pub save : Attempt → T → FileRepository T → Result (Unit {0}) × FileRepository T
  unfolding commit
  save a item r = commit a (model.get_id item) item r

  -- CreateIfFieldNotExists
  unfoldable pub create_if_field_not_exists :
      Attempt → String → String → T → FileRepository T → Result (Unit {0}) × FileRepository T
  unfolding find_by_field commit
  create_if_field_not_exists a field value item r =
      let (found, r') = find_by_field field value r in
      elim found [
        | ok taken ↦ (err conflict, r')
        | err e ↦ if not (is_not_found e) then (err e, r') else commit a (model.get_id item) item r'
      ]

  -- UpdateByField
  unfoldable pub update_by_field :
      Attempt
      → String
      → String
      → (T → Result T)
      → FileRepository T
      → Result (Unit {0}) × FileRepository T
  unfolding find_by_field commit
  update_by_field a field value update r =
      let (found, r') = find_by_field field value r in
      elim (found >>= update) [
        | err e ↦ (err e, r')
        | ok changed ↦ commit a (model.get_id changed) changed r'
      ]

  -- The loop of UpdateAll. A changed item is a new pointer, so that sameItems is the flag's negation.
  unfoldable pub update_items :
      (T → Result (T × Bool)) → List (String × T) → Result (List (String × T) × Bool)
  update_items update [] = ok ([], false)
  update_items update ((id, item) ∷ rest) = update item >>= λ done.
      update_items update rest >>= λ others.
      ok ((id, if done.1 then done.0 else item) ∷ others.0, done.1 || others.1)

  -- UpdateAll
  unfoldable pub update_all :
      Attempt → (T → Result (T × Bool)) → FileRepository T → Result (Unit {0}) × FileRepository T
  unfolding update_items write_items rebuild_indexes
  update_all a update r = elim (update_items update r.items) [
    | err e ↦ (err e, r)
    | ok (next, changed) ↦
        if not changed
        then (ok tt, r)
        else (let (written, disk) = write_items a next r.disk in
            elim written [
              | err e ↦ (err e, record r { disk = disk })
              | ok u ↦ (
                ok u,
                record {
                  items = next;
                  indexed_fields = rebuild_indexes next r.indexed_fields;
                  disk = disk;
                },
              )
            ])
  ]

-- One call of an exported method, with what its write meets.
pub data Call (T : Type 0) : Type 0 where
  look_up : String → String → Call T
  create : Attempt → String → String → T → Call T
  save_item : Attempt → T → Call T
  update_one : Attempt → String → String → (T → Result T) → Call T
  update_each : Attempt → (T → Result (T × Bool)) → Call T

unfoldable pub perform : {T D : Type 0} → Model T D → Call T → FileRepository T → FileRepository T
unfolding find_by_field create_if_field_not_exists save update_by_field update_all
perform model (look_up field value) r = (find_by_field model field value r).1
perform model (create a field value item) r =
    (create_if_field_not_exists model a field value item r).1
perform model (save_item a item) r = (save model a item r).1
perform model (update_one a field value update) r = (update_by_field model a field value update r).1
perform model (update_each a update) r = (update_all model a update r).1
