-- ===== src/FileRepo/Reach/Steps.antt =====
-- The states that the operations of the file repository reach, and what holds in each.
use hexagonal_backend.Common.{String, ◌≡◌, inl, inr, ◌⊎◌, Bool, none, List, arith}
use hexagonal_backend.Common.Result.{ok}
use hexagonal_backend.FileRepo.{
  Model, FileRepository, find_by_field, save, update_items, new_repository,
}
use hexagonal_backend.FileRepo.WriteFile.{Disk}
use hexagonal_backend.FileRepo.Field.{scan_by_field}
use hexagonal_backend.FileRepo.Keyed.{IsKeyed}
use hexagonal_backend.FileRepo.Indexes.{FieldIs, IsUnique}
use hexagonal_backend.FileRepo.Indexes.Update.{IsFree}
use hexagonal_backend.FileRepo.{Call, look_up, create, save_item, update_one, update_each, perform}
use hexagonal_backend.FileRepo.Refine.{IsText, IsReady, find_by_field-scan}
use hexagonal_backend.FileRepo.Reach.{find_by_field-IsReady, commit-IsReady}
use hexagonal_backend.FileRepo.Reach.Writes.{
  create-IsReady, create_other-IsReady, update_by_field-IsReady, update_all-IsReady,
}

module _ {T D : Type 0} (model : Model T D) (field : String) where
  -- A write brings no value of the field that another item has; CreateIfFieldNotExists on the
  -- field, for an item that has the value, sees to that itself; UpdateByField writes what its
  -- function makes of the item that it finds.
  abbrev pub Respects : Call T → FileRepository T → Type 0
  Respects (look_up any value) r = Unit {0}
  Respects (create a any value item) r =
      ((any ≡ field) × FieldIs model field item value)
      ⊎ IsFree model field r.items (model.get_id item) item
  Respects (save_item a item) r = IsFree model field r.items (model.get_id item) item
  Respects (update_one a any value update) r =
      (x y : T)
      → (find_by_field model any value r).0 ≡ ok x
      → update x ≡ ok y
      → IsFree model field r.items (model.get_id y) y
  Respects (update_each a update) r =
      (next : List (String × T)) (changed : Bool)
      → update_items model update r.items ≡ ok (next, changed)
      → IsUnique model field next

  -- The states that calls lead to from New, where the file has distinct ids and values.
  pub data Reachable : FileRepository T → Type 0 where
    opened :
        (open_fails : Bool) (d : Disk) (r : FileRepository T)
        → new_repository model open_fails d ≡ ok r
        → IsKeyed r.items
        → IsUnique model field r.items
        → Reachable r
    and_then :
        {r : FileRepository T} (call : Call T)
        → Reachable r
        → Respects call r
        → Reachable (perform model call r)

  new_repository-indexed_fields :
      (open_fails : Bool) (d : Disk) (r : FileRepository T)
      → new_repository model open_fails d ≡ ok r
      → r.indexed_fields field ≡ none
  unfolding new_repository
  new_repository-indexed_fields open_fails d r e = ground (arith, e)

  perform-IsReady :
      (call : Call T) (r : FileRepository T)
      → IsText model field
      → Respects call r
      → IsReady model field r
      → IsReady model field (perform model call r)
  unfolding perform save
  perform-IsReady (look_up any value) r text h v =
      find_by_field-IsReady model field any value r text v
  perform-IsReady (create a any value item) r text (inl (same, is)) v =
      rw same (create-IsReady model field text a value item r is v)
  perform-IsReady (create a any value item) r text (inr free) v =
      create_other-IsReady model field text a any value item r free v
  perform-IsReady (save_item a item) r text h v =
      commit-IsReady model field a (model.get_id item) item r h v
  perform-IsReady (update_one a any value update) r text h v =
      update_by_field-IsReady model field text a any value update r h v
  perform-IsReady (update_each a update) r text h v =
      update_all-IsReady model field text a update r h v

  Reachable-IsReady :
      {r : FileRepository T} → IsText model field → Reachable r → IsReady model field r
  Reachable-IsReady text (opened o d r e k u) = record {
    keyed = k;
    unique = u;
    indexed = λ index there. absurd (ground (arith, there, new_repository-indexed_fields o d r e));
  }
  Reachable-IsReady text (and_then {r} call before h) =
      perform-IsReady call r text h (Reachable-IsReady text before)

  -- In every state that calls lead to from New, FindByField on a text field answers as a scan of
  -- the items does, if the ids and the values of the field are distinct at first and no write
  -- brings a value of the field that another item has, where UpdateByField writes what its function
  -- makes of the item that it finds; CreateIfFieldNotExists on the field, for an item that has the
  -- value, needs no such condition.
  pub Reachable-find_by_field :
      {r : FileRepository T} (value : String)
      → IsText model field
      → Reachable r
      → (find_by_field model field value r).0 ≡ scan_by_field model.reflect r.items field value
  Reachable-find_by_field {r} value text reached =
      find_by_field-scan model field value r text (Reachable-IsReady text reached)
