-- ===== src/FileRepo/Durable.antt =====
-- What the file holds: after every call, and after a crash inside a write, a repository that is
-- opened on it has the items that were there before the write or after it.
use mathlib.Core.Path.{subst}
use hexagonal_backend.Common.{
  ℕ, String, ◌≡◌, refl, sym, ◌⊎◌, inl, inr, Bool, true, false, Option, none, some, List, [], ◌∷◌,
  if_elim, if◌then◌else◌, not, Option-cases, Bool-cases, arith, ◌||◌,
}
use hexagonal_backend.Common.Result.{Result, ok, err, ◌>>=◌, >>=-eq-ok}
use hexagonal_backend.Common.Text.{str_eq}
use hexagonal_backend.Errors.{backend, is_not_found}
use hexagonal_backend.World.Map.{insert, lookup}
use hexagonal_backend.FileRepo.{
  Model, FileRepository, Call, look_up, create, save_item, update_one, update_each, perform, Index,
  no_index, assign, build_index, find_by_field, find_in_index, commit, write_items, save,
  create_if_field_not_exists, update_by_field, update_all, update_items, docs_of,
}
use hexagonal_backend.FileRepo.Keyed.{IsKeyed, insert-IsKeyed}
use hexagonal_backend.FileRepo.Reach.Writes.{update_items-IsKeyed}
use hexagonal_backend.FileRepo.WriteFile.{
  Attempt, Disk, start, run_calls, write_to_file_lem, write_crash_safe,
}
use hexagonal_backend.FileRepo.Reopened.{IsCodec, Holds, AllStorable, encoded-Holds}

module _ {T D : Type 0} (model : Model T D) (Storable : T → Type 0) where
  -- The items are keyed and storable, and a repository opened on the file has them.
  pub record IsSaved (r : FileRepository T) : Type 0 where
    pub keyed : IsKeyed r.items
    pub storable : AllStorable Storable r.items
    pub held : Holds model r.disk.file r.items

  -- What a call writes can be stored; the functions that it is given keep this of an item.
  abbrev pub WritesStorable : Call T → Type 0
  WritesStorable (look_up field value) = Unit {0}
  WritesStorable (create a field value item) = Storable item
  WritesStorable (save_item a item) = Storable item
  WritesStorable (update_one a field value update) =
      (x y : T) → Storable x → update x ≡ ok y → Storable y
  WritesStorable (update_each a update) =
      (x y : T) (changed : Bool) → Storable x → update x ≡ ok (y, changed) → Storable y

module _ {T D : Type 0} (model : Model T D) (codec : IsCodec model) (Storable : T → Type 0)
    (converts : (item : T) → Storable item → model.to_entity (model.to_doc item) ≡ ok item) where
  -- writeItems leaves a file that holds the items, or fails and leaves the file as it was.
  write_items-Holds :
      (a : Attempt) (next : List (String × T)) (d : Disk)
      → IsKeyed next
      → AllStorable Storable next
      → let (w, d') = write_items model a next d in
        ((w ≡ ok tt) × Holds model d'.file next) ⊎ ((w ≡ err backend) × (d'.file ≡ d.file))
  unfolding write_items
  write_items-Holds a next d k s =
      elim (write_to_file_lem (record a { encoded = model.encode (docs_of model next) }) d) [
        | inl (w, whole, there) ↦ inl (
          w,
          subst (λ f. Holds model f next) (sym whole)
              (encoded-Holds model Storable converts codec next k s there),
        )
        | inr failed ↦ inr failed
      ]

  insert-AllStorable :
      (id : String) (item : T) (items : List (String × T))
      → Storable item
      → AllStorable Storable items
      → AllStorable Storable (insert id item items)
  unfolding insert
  insert-AllStorable id item [] p s = (p, tt)
  insert-AllStorable id item ((key, old) ∷ rest) p s = elim (Bool-cases (str_eq key id)) [
    | inl same ↦ rw same (p, s.1)
    | inr differs ↦ rw differs (s.0, insert-AllStorable id item rest p s.1)
  ]

  lookup-Storable :
      (items : List (String × T)) (id : String) (item : T)
      → AllStorable Storable items
      → lookup id items ≡ some item
      → Storable item
  unfolding lookup
  lookup-Storable [] id item s found = absurd (ground (arith, found))
  lookup-Storable ((key, x) ∷ rest) id item s found = elim (Bool-cases (str_eq key id)) [
    | inl same ↦ subst Storable (let this : x ≡ item = ground (arith, same, found) in this) s.0
    | inr differs ↦ lookup-Storable rest id item s.1 (ground (arith, differs, found))
  ]

  -- The loop of UpdateAll keeps the items storable.
  update_items-AllStorable :
      (update : T → Result (T × Bool)) (items next : List (String × T)) (changed : Bool)
      → ((x y : T) (b : Bool) → Storable x → update x ≡ ok (y, b) → Storable y)
      → update_items model update items ≡ ok (next, changed)
      → AllStorable Storable items
      → AllStorable Storable next
  unfolding update_items
  update_items-AllStorable update [] next changed keeps e s =
      subst (AllStorable Storable) (let same : [] ≡ next = ground (arith, e) in same) tt
  update_items-AllStorable update ((id, x) ∷ rest) next changed keeps e s =
      let (done, ran, e') =
        >>=-eq-ok (update x)
          (λ done. update_items model update rest >>= λ others.
            ok ((id, if done.1 then done.0 else x) ∷ others.0, done.1 || others.1))
          e in
      let (others, looped, last) =
        >>=-eq-ok (update_items model update rest)
          (λ others. ok ((id, if done.1 then done.0 else x) ∷ others.0, done.1 || others.1)) e' in
      let same : (id, if done.1 then done.0 else x) ∷ others.0 ≡ next = ground (arith, last) in
      subst (AllStorable Storable) same (
        if_elim done.1 Storable (keeps x done.0 done.1 s.0 ran) s.0,
        update_items-AllStorable update rest others.0 others.1 keeps looped s.1,
      )

  commit-IsSaved :
      (a : Attempt) (id : String) (item : T) (r : FileRepository T)
      → Storable item
      → IsSaved model Storable r
      → IsSaved model Storable (commit model a id item r).1
  unfolding commit
  commit-IsSaved a id item r p h =
      let keyed = insert-IsKeyed id item r.items h.keyed in
      let storable = insert-AllStorable id item r.items p h.storable in
      elim (write_items-Holds a (insert id item r.items) r.disk keyed storable) [
        | inl (w, held) ↦
            rw (w, commit) (record { keyed = keyed; storable = storable; held = held })
        | inr (w, same) ↦
            rw (w, commit)
              (record {
                keyed = h.keyed;
                storable = h.storable;
                held = subst (λ f. Holds model f r.items) (sym same) h.held;
              })
      ]

  find_by_field-frame :
      (field value : String) (r : FileRepository T)
      → let r' = (find_by_field model field value r).1 in (r'.items ≡ r.items) × (r'.disk ≡ r.disk)
  unfolding find_by_field find_in_index
  find_by_field-frame field value r = ground arith

  find_in_index-item :
      (field value : String) (index : Index) (r : FileRepository T) (x : T)
      → (find_in_index model field value index r).0 ≡ ok x
      → (id : String) × (lookup id r.items ≡ some x)
  unfolding find_in_index
  find_in_index-item field value index r x e = elim (Option-cases (index value)) [
    | inl absent ↦ absurd (ground (arith, absent, e))
    | inr (id, there) ↦ (id, ground (arith, there, e))
  ]

  -- What FindByField finds is an item.
  find_by_field-item :
      (field value : String) (r : FileRepository T) (x : T)
      → (find_by_field model field value r).0 ≡ ok x
      → (id : String) × (lookup id r.items ≡ some x)
  unfolding find_by_field
  find_by_field-item field value r x e = by_index (r.indexed_fields field) refl
    where
      by_build :
          (b : Result Index)
          → build_index model field r.items no_index ≡ b
          → r.indexed_fields field ≡ none
          → (id : String) × (lookup id r.items ≡ some x)
      by_build (err reason) built absent = absurd (ground (arith, built, absent, e))
      by_build (ok index) built absent =
          find_in_index-item field value index
            (record r { indexed_fields = assign field (some index) r.indexed_fields }) x
            (ground (arith, built, absent, e))

      by_index :
          (o : Option Index)
          → r.indexed_fields field ≡ o
          → (id : String) × (lookup id r.items ≡ some x)
      by_index (some index) there =
          find_in_index-item field value index r x (ground (arith, there, e))
      by_index none absent = by_build (build_index model field r.items no_index) refl absent

  find_by_field-Storable :
      (field value : String) (r : FileRepository T) (x : T)
      → AllStorable Storable r.items
      → (find_by_field model field value r).0 ≡ ok x
      → Storable x
  find_by_field-Storable field value r x s e =
      let (id, there) = find_by_field-item field value r x e in lookup-Storable r.items id x s there

  find_by_field-IsSaved :
      (field value : String) (r : FileRepository T)
      → IsSaved model Storable r
      → IsSaved model Storable (find_by_field model field value r).1
  find_by_field-IsSaved field value r h =
      let kept = find_by_field-frame field value r in
      record {
        keyed = rw (kept.0) h.keyed;
        storable = rw (kept.0) h.storable;
        held = rw (kept.0, kept.1) h.held;
      }

  create-IsSaved :
      (a : Attempt) (field value : String) (item : T) (r : FileRepository T)
      → Storable item
      → IsSaved model Storable r
      → IsSaved model Storable (create_if_field_not_exists model a field value item r).1
  unfolding create_if_field_not_exists
  create-IsSaved a field value item r p h = by_found (find_by_field model field value r).0 refl
    where
      looked : IsSaved model Storable (find_by_field model field value r).1
      looked = find_by_field-IsSaved field value r h

      by_found :
          (f : Result T)
          → (find_by_field model field value r).0 ≡ f
          → IsSaved model Storable (create_if_field_not_exists model a field value item r).1
      by_found (ok taken) e = rw (e, create_if_field_not_exists) looked
      by_found (err reason) e =
          rw (e, create_if_field_not_exists)
            (if_elim {A = Result (Unit {0}) × FileRepository T} (not (is_not_found reason))
              (λ out. IsSaved model Storable out.1) looked
              (commit-IsSaved a (model.get_id item) item (find_by_field model field value r).1 p
                looked))

  update_by_field-IsSaved :
      (a : Attempt) (field value : String) (update : T → Result T) (r : FileRepository T)
      → ((x y : T) → Storable x → update x ≡ ok y → Storable y)
      → IsSaved model Storable r
      → IsSaved model Storable (update_by_field model a field value update r).1
  unfolding update_by_field
  update_by_field-IsSaved a field value update r keeps h =
      by_found ((find_by_field model field value r).0 >>= update) refl
    where
      looked : IsSaved model Storable (find_by_field model field value r).1
      looked = find_by_field-IsSaved field value r h

      by_found :
          (f : Result T)
          → ((find_by_field model field value r).0 >>= update) ≡ f
          → IsSaved model Storable (update_by_field model a field value update r).1
      by_found (err reason) e = rw (e, update_by_field) looked
      by_found (ok y) e =
          let (x, found, updated) = >>=-eq-ok (find_by_field model field value r).0 update e in
          rw (e, update_by_field)
            (commit-IsSaved a (model.get_id y) y (find_by_field model field value r).1
              (keeps x y (find_by_field-Storable field value r x h.storable found) updated) looked)

  update_all-IsSaved :
      (a : Attempt) (update : T → Result (T × Bool)) (r : FileRepository T)
      → ((x y : T) (b : Bool) → Storable x → update x ≡ ok (y, b) → Storable y)
      → IsSaved model Storable r
      → IsSaved model Storable (update_all model a update r).1
  unfolding update_all
  update_all-IsSaved a update r keeps h = by_loop (update_items model update r.items) refl
    where
      by_loop :
          (f : Result (List (String × T) × Bool))
          → update_items model update r.items ≡ f
          → IsSaved model Storable (update_all model a update r).1
      by_loop (err reason) e = rw (e, update_all) h
      by_loop (ok (next, false)) e = rw (e, update_all) h
      by_loop (ok (next, true)) e =
          let keyed = update_items-IsKeyed model update r.items next true e h.keyed in
          let storable = update_items-AllStorable update r.items next true keeps e h.storable in
          elim (write_items-Holds a next r.disk keyed storable) [
            | inl (w, held) ↦
                rw (e, update_all, w) (record { keyed = keyed; storable = storable; held = held })
            | inr (w, same) ↦
                rw (e, update_all, w)
                  (record {
                    keyed = h.keyed;
                    storable = h.storable;
                    held = subst (λ f. Holds model f r.items) (sym same) h.held;
                  })
          ]

  -- After any call that writes storable items, whichever system call of its write fails, the items
  -- are keyed and storable, and a repository opened on the file has the items that the repository
  -- has in memory, if it was so before. The JSON codec gives back a map of documents as the same
  -- map, in any order, and an item is storable if its document gives it back.
  pub perform-IsSaved :
      (call : Call T) (r : FileRepository T)
      → WritesStorable model Storable call
      → IsSaved model Storable r
      → IsSaved model Storable (perform model call r)
  unfolding perform save
  perform-IsSaved (look_up field value) r p h = find_by_field-IsSaved field value r h
  perform-IsSaved (create a field value item) r p h = create-IsSaved a field value item r p h
  perform-IsSaved (save_item a item) r p h = commit-IsSaved a (model.get_id item) item r p h
  perform-IsSaved (update_one a field value update) r p h =
      update_by_field-IsSaved a field value update r p h
  perform-IsSaved (update_each a update) r p h = update_all-IsSaved a update r p h

  -- A crash between any two system calls of a write of storable items, no id twice, leaves a file
  -- that holds the old items or the new ones, if it held the old ones before. The JSON codec gives
  -- back a map of documents as the same map, in any order, and an item is storable if its document
  -- gives it back.
  pub crash_recovers :
      (calls : ℕ) (a : Attempt) (old next : List (String × T)) (d : Disk)
      → IsKeyed next
      → AllStorable Storable next
      → Holds model d.file old
      → let whole = record a { encoded = model.encode (docs_of model next) } in
        let cut = (run_calls calls whole (start d)).disk in
        Holds model cut.file old ⊎ Holds model cut.file next
  crash_recovers calls a old next d k s h =
      elim (write_crash_safe calls (record a { encoded = model.encode (docs_of model next) }) d) [
        | inl same ↦ inl (subst (λ f. Holds model f old) (sym same) h)
        | inr (whole, there) ↦ inr (
            subst (λ f. Holds model f next) (sym whole)
              (encoded-Holds model Storable converts codec next k s there))
      ]
