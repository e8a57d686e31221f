-- ===== src/FileRepo/Reach/Writes.antt =====
-- What keeps the file repository ready: creating and updating.
use mathlib.Core.Path.{subst}
use hexagonal_backend.Common.{
  String, ◌≡◌, refl, Bool, Option, none, some, List, [], ◌∷◌, if_elim, if◌then◌else◌, ◌||◌, not,
  arith,
}
use hexagonal_backend.Common.Result.{Result, ok, err, ◌>>=◌, >>=-eq-ok}
use hexagonal_backend.Errors.{Error, is_not_found}
use hexagonal_backend.World.Map.{lookup}
use hexagonal_backend.FileRepo.{
  Model, Index, FileRepository, build_index, find_in_index, find_by_field, no_index, write_items,
  create_if_field_not_exists, update_by_field, update_all, update_items, rebuild_indexes,
}
use hexagonal_backend.FileRepo.WriteFile.{Attempt, Disk}
use hexagonal_backend.FileRepo.Keyed.{IsKeyed}
use hexagonal_backend.FileRepo.Indexes.{FieldIs, IsUnique, build_index-IsIndex}
use hexagonal_backend.FileRepo.Indexes.Update.{IsFree}
use hexagonal_backend.FileRepo.Refine.{IsText, IsReady, find_by_field-scan, scan_of_some}
use hexagonal_backend.FileRepo.Reach.{same-IsReady, find_by_field-IsReady, commit-IsReady}

module _ {T D : Type 0} (model : Model T D) where
  find_by_field-items :
      (any value : String) (r : FileRepository T)
      → (find_by_field model any value r).1.items ≡ r.items
  unfolding find_by_field find_in_index
  find_by_field-items any value r = ground arith

  -- What a round of the loop of UpdateAll leaves.
  pub update_items-cons :
      (update : T → Result (T × Bool)) (id : String) (x : T) (rest next : List (String × T))
      (changed : Bool)
      → update_items model update ((id, x) ∷ rest) ≡ ok (next, changed)
      → (y : T) × (others : List (String × T)) × (more : Bool) × (update_items model update rest
          ≡ ok (others, more))
        × ((id, y) ∷ others ≡ next)
  unfolding update_items
  update_items-cons update id x rest next changed e =
      let (done, _, e') =
        >>=-eq-ok (update x)
          (λ done. update_items model update rest >>= λ others.
            ok ((id, if done.1 then done.0 else x) ∷ others.0, done.1 || others.1))
          e in
      let (others, looped, last) =
        >>=-eq-ok (update_items model update rest)
          (λ others. ok ((id, if done.1 then done.0 else x) ∷ others.0, done.1 || others.1)) e' in
      (if done.1 then done.0 else x, others.0, others.1, looped, ground (arith, last))

  -- The loop of UpdateAll keeps the ids.
  update_items-lookup :
      (update : T → Result (T × Bool)) (items next : List (String × T)) (changed : Bool)
      → update_items model update items ≡ ok (next, changed)
      → (id : String) → lookup id items ≡ none
      → lookup id next ≡ none
  unfolding update_items lookup
  update_items-lookup update [] next changed e id h = ground (arith, e)
  update_items-lookup update ((k, x) ∷ rest) next changed e id h =
      let (y, others, more, looped, same) = update_items-cons update k x rest next changed e in
      ground (arith, same, h, update_items-lookup update rest others more looped id)

  pub update_items-IsKeyed :
      (update : T → Result (T × Bool)) (items next : List (String × T)) (changed : Bool)
      → update_items model update items ≡ ok (next, changed)
      → IsKeyed items
      → IsKeyed next
  unfolding update_items
  update_items-IsKeyed update [] next changed e k =
      subst (λ l. IsKeyed l) (let same : [] ≡ next = ground (arith, e) in same) tt
  update_items-IsKeyed update ((id, x) ∷ rest) next changed e k =
      let (y, others, more, looped, same) = update_items-cons update id x rest next changed e in
      subst (λ l. IsKeyed l) same
        (
          update_items-lookup update rest others more looped id k.0,
          update_items-IsKeyed update rest others more looped k.1,
        )

  rebuild_indexes-eq-some :
      (field : String) (items : List (String × T)) (indexed : String → Option Index) (index : Index)
      → rebuild_indexes model items indexed field ≡ some index
      → build_index model field items no_index ≡ ok index
  unfolding rebuild_indexes
  rebuild_indexes-eq-some field items indexed index h = ground (arith, h)

  module _ (field : String) (text : IsText model field) where
    guarded-IsReady :
        (a : Attempt) (any value : String) (item : T) (r : FileRepository T)
        → ((e : Error)
            → (find_by_field model any value r).0 ≡ err e
            → IsFree model field (find_by_field model any value r).1.items (model.get_id item) item)
        → IsReady model field r
        → IsReady model field (create_if_field_not_exists model a any value item r).1
    unfolding create_if_field_not_exists
    guarded-IsReady a any value item r free v = by_found (find_by_field model any value r).0 refl
      where
        looked : IsReady model field (find_by_field model any value r).1
        looked = find_by_field-IsReady model field any value r text v

        by_found :
            (f : Result T)
            → (find_by_field model any value r).0 ≡ f
            → IsReady model field (create_if_field_not_exists model a any value item r).1
        by_found (ok taken) e = rw (e, create_if_field_not_exists) looked
        by_found (err reason) e =
            rw (e, create_if_field_not_exists)
              (if_elim {A = Result (Unit {0}) × FileRepository T} (not (is_not_found reason))
                (λ p. IsReady model field p.1) looked
                (commit-IsReady model field a (model.get_id item) item
                  (find_by_field model any value r).1 (free reason e) looked))

    -- CreateIfFieldNotExists on the field, for an item that has the value: its guard is enough.
    pub create-IsReady :
        (a : Attempt) (value : String) (item : T) (r : FileRepository T)
        → FieldIs model field item value
        → IsReady model field r
        → IsReady model field (create_if_field_not_exists model a field value item r).1
    create-IsReady a value item r is v =
        guarded-IsReady a field value item r
          (λ e missing value' other x has found has'.
            let old : lookup other r.items ≡ some x =
              rw (find_by_field-items field value r) at found in
            let same : value' ≡ value = ground (arith, has, is) in
            absurd (
              ground (
                arith,
                missing,
                find_by_field-scan model field value r text v,
                scan_of_some model field r.items value other x text v.keyed v.unique old
                    (subst (λ t. FieldIs model field x t) same has'),
              )))
          v

    pub create_other-IsReady :
        (a : Attempt) (other value : String) (item : T) (r : FileRepository T)
        → IsFree model field r.items (model.get_id item) item
        → IsReady model field r
        → IsReady model field (create_if_field_not_exists model a other value item r).1
    create_other-IsReady a other value item r free v =
        guarded-IsReady a other value item r
          (λ e missing. rw (find_by_field-items other value r) free) v

    pub update_by_field-IsReady :
        (a : Attempt) (any value : String) (update : T → Result T) (r : FileRepository T)
        → ((x y : T)
            → (find_by_field model any value r).0 ≡ ok x
            → update x ≡ ok y
            → IsFree model field r.items (model.get_id y) y)
        → IsReady model field r
        → IsReady model field (update_by_field model a any value update r).1
    unfolding update_by_field
    update_by_field-IsReady a any value update r free v =
        by_found ((find_by_field model any value r).0 >>= update) refl
      where
        looked : IsReady model field (find_by_field model any value r).1
        looked = find_by_field-IsReady model field any value r text v

        by_found :
            (f : Result T)
            → ((find_by_field model any value r).0 >>= update) ≡ f
            → IsReady model field (update_by_field model a any value update r).1
        by_found (err reason) e = rw (e, update_by_field) looked
        by_found (ok y) e =
            let (x, found, updated) = >>=-eq-ok (find_by_field model any value r).0 update e in
            rw (e, update_by_field)
              (commit-IsReady model field a (model.get_id y) y (find_by_field model any value r).1
                (rw (find_by_field-items any value r) (free x y found updated)) looked)

    pub update_all-IsReady :
        (a : Attempt) (update : T → Result (T × Bool)) (r : FileRepository T)
        → ((next : List (String × T)) (changed : Bool)
            → update_items model update r.items ≡ ok (next, changed)
            → IsUnique model field next)
        → IsReady model field r
        → IsReady model field (update_all model a update r).1
    unfolding update_all
    update_all-IsReady a update r unique v = by_loop (update_items model update r.items) refl
      where
        replaced :
            List (String × T) → Result (Unit {0}) × Disk → Result (Unit {0}) × FileRepository T
        replaced next w = elim w.0 [
          | err e ↦ (err e, record r { disk = w.1 })
          | ok u ↦ (
            ok u,
            record {
              items = next;
              indexed_fields = rebuild_indexes model next r.indexed_fields;
              disk = w.1;
            },
          )
        ]

        by_write :
            (next : List (String × T))
            → IsKeyed next
            → IsUnique model field next
            → (w : Result (Unit {0}) × Disk) → IsReady model field (replaced next w).1
        by_write next k u (err e, d) = same-IsReady model field r _ refl refl v
        by_write next k u (ok done, d) = record {
          keyed = k;
          unique = u;
          indexed = λ index there.
              build_index-IsIndex model field next index k u
                (rebuild_indexes-eq-some field next r.indexed_fields index there);
        }

        by_loop :
            (f : Result (List (String × T) × Bool))
            → update_items model update r.items ≡ f
            → IsReady model field (update_all model a update r).1
        by_loop (err reason) e = rw (e, update_all) v
        by_loop (ok (next, changed)) e =
            rw (e, update_all)
              (if_elim {A = Result (Unit {0}) × FileRepository T} (not changed)
                (λ p. IsReady model field p.1) v
                (by_write next (update_items-IsKeyed update r.items next changed e v.keyed)
                  (unique next changed e) (write_items model a next r.disk)))
