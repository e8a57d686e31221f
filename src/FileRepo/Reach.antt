-- ===== src/FileRepo/Reach.antt =====
-- What keeps the file repository ready: lookups and writes.
pub mod Writes
pub mod Steps
use mathlib.Core.Path.{subst}
use hexagonal_backend.Common.{
  String, ◌≡◌, refl, sym, ap, ◌∙◌, inl, inr, Bool, true, false, Option, none, some, List, [], ◌∷◌,
  Bool-cases, Option-cases, arith, eq_iff,
}
use hexagonal_backend.Common.Text.{str_eq, str_eq_refl, str_eq→eq}
use hexagonal_backend.Common.Result.{Result, ok, err, ◌>>=◌}
use hexagonal_backend.Errors.{not_found, conflict}
use hexagonal_backend.World.Map.{lookup, insert}
use hexagonal_backend.FileRepo.{
  Model, Index, FileRepository, assign, build_index, index_item, find_in_index, find_by_field,
  no_index, commit, write_items, update_indexes, update_index, save, create_if_field_not_exists,
  update_by_field, update_all, update_items, rebuild_indexes,
}
use hexagonal_backend.FileRepo.WriteFile.{Attempt, Disk}
use hexagonal_backend.FileRepo.Field.{scan_by_field}
use hexagonal_backend.FileRepo.Keyed.{IsKeyed, insert-IsKeyed}
use hexagonal_backend.FileRepo.Indexes.{FieldIs, IsUnique, IsIndex, Holds, build_index-IsIndex}
use hexagonal_backend.FileRepo.Indexes.Update.{IsFree, insert-IsUnique, update_index-IsIndex}
use hexagonal_backend.FileRepo.Refine.{IsText, IsReady, find_in_index_lem, build_index_total}

module _ {T D : Type 0} (model : Model T D) (field : String) where
  -- A state with the same items and the same index on the field.
  pub same-IsReady :
      (r r' : FileRepository T)
      → r'.items ≡ r.items
      → r'.indexed_fields field ≡ r.indexed_fields field
      → IsReady model field r
      → IsReady model field r'
  same-IsReady r r' e f v = record {
    keyed = subst (λ l. IsKeyed l) (sym e) v.keyed;
    unique = subst (λ l. IsUnique model field l) (sym e) v.unique;
    indexed = λ index there.
        subst (λ l. IsIndex model field l index) (sym e) (v.indexed index (sym f ∙ there));
  }

  find_in_index-frame :
      (other value : String) (index : Index) (r : FileRepository T)
      → str_eq other field ≡ false
      → let r' = (find_in_index model other value index r).1 in
        (r'.items ≡ r.items) × (r'.indexed_fields field ≡ r.indexed_fields field)
  unfolding find_in_index assign
  find_in_index-frame other value index r differs = ground (arith, differs)

  find_by_field-IsReady_other :
      (other value : String) (r : FileRepository T)
      → str_eq other field ≡ false
      → IsReady model field r
      → IsReady model field (find_by_field model other value r).1
  unfolding find_by_field assign
  find_by_field-IsReady_other other value r differs v =
      elim (Option-cases (r.indexed_fields other)) [
        | inr (index, there) ↦
            let kept = find_in_index-frame other value index r differs in
            rw (there, find_by_field) (same-IsReady r _ kept.0 kept.1 v)
        | inl absent ↦ by_build (build_index model other r.items no_index) refl absent
      ]
    where
      by_build :
          (built : Result Index)
          → build_index model other r.items no_index ≡ built
          → r.indexed_fields other ≡ none
          → IsReady model field (find_by_field model other value r).1
      by_build (err e) b absent = rw (absent, b, find_by_field) v
      by_build (ok index) b absent =
          let r' : FileRepository T = record r {
            indexed_fields = assign other (some index) r.indexed_fields;
          } in
          let kept = find_in_index-frame other value index r' differs in
          rw (absent, b, find_by_field)
            (same-IsReady r _ kept.0 (kept.1 ∙ ground (arith, differs)) v)

  find_by_field-IsReady_self :
      (value : String) (r : FileRepository T)
      → IsText model field
      → IsReady model field r
      → IsReady model field (find_by_field model field value r).1
  unfolding find_by_field assign
  find_by_field-IsReady_self value r text v = elim (Option-cases (r.indexed_fields field)) [
    | inr (index, there) ↦
        let kept =
          find_in_index_lem model field value index r text v.keyed v.unique
            (v.indexed index there) in
        rw (there, find_by_field, kept) v
    | inl absent ↦
        let (index, built) = build_index_total model field r.items no_index text in
        let is = build_index-IsIndex model field r.items index v.keyed v.unique built in
        let r' : FileRepository T = record r {
          indexed_fields = assign field (some index) r.indexed_fields;
        } in
        let kept = find_in_index_lem model field value index r' text v.keyed v.unique is in
        rw (absent, built, find_by_field, kept)
          (record {
            keyed = v.keyed;
            unique = v.unique;
            indexed = λ i there.
                subst (λ j. IsIndex model field r.items j)
                  (ground (arith, there, str_eq_refl field)) is;
          })
  ]

  -- A lookup by any field keeps the repository ready.
  pub find_by_field-IsReady :
      (any value : String) (r : FileRepository T)
      → IsText model field
      → IsReady model field r
      → IsReady model field (find_by_field model any value r).1
  find_by_field-IsReady any value r text v = elim (Bool-cases (str_eq any field)) [
    | inr differs ↦ find_by_field-IsReady_other any value r differs v
    | inl same ↦ rw (str_eq→eq any field same) (find_by_field-IsReady_self value r text v)
  ]

  pub commit-IsReady :
      (a : Attempt) (id : String) (item : T) (r : FileRepository T)
      → IsFree model field r.items id item
      → IsReady model field r
      → IsReady model field (commit model a id item r).1
  unfolding commit update_indexes
  commit-IsReady a id item r free v = by_write (write_items model a next r.disk).0 refl
    where
      next : List (String × T)
      next = insert id item r.items

      by_old :
          (old : Option Index)
          → r.indexed_fields field ≡ old
          → (index : Index)
          → elim old [ none ↦ none | some i ↦ some (update_index model id field item i) ]
            ≡ some index
          → IsIndex model field next index
      by_old none e index h = absurd (cc)
      by_old (some i) e index h =
          subst (λ j. IsIndex model field next j) (ground (arith, h))
            (update_index-IsIndex model field r.items i id item (v.indexed i e) free)

      by_write :
          (written : Result (Unit {0}))
          → (write_items model a next r.disk).0 ≡ written
          → IsReady model field (commit model a id item r).1
      by_write (err e) w = rw (w, commit) (same-IsReady r _ refl refl v)
      by_write (ok u) w =
          rw (w, commit)
            (record {
              keyed = insert-IsKeyed id item r.items v.keyed;
              unique = insert-IsUnique model field r.items id item v.unique free;
              indexed = by_old (r.indexed_fields field) refl;
            })
