-- ===== src/FileRepo/Keyed.antt =====
-- Maps as association lists in which no key stands twice.
use hexagonal_backend.Common.{
  String, ◌≡◌, refl, sym, ap, ◌∙◌, ◌⊎◌, inl, inr, none, some, List, [], ◌∷◌, Bool-cases, arith,
  false, eq_iff,
}
use hexagonal_backend.Common.Text.{str_eq, str_eq_refl, str_eq→eq}
use hexagonal_backend.World.Map.{lookup, insert, lookup-insert}

-- No key stands twice, as in a map.
abbrev pub IsKeyed : {T : Type 0} → List (String × T) → Type 0
IsKeyed [] = Unit {0}
IsKeyed ((id, item) ∷ rest) = (lookup id rest ≡ none) × IsKeyed rest

lookup-insert-eq-none :
    {T : Type 0} (id wanted : String) (item : T) (items : List (String × T))
    → str_eq wanted id ≡ false
    → lookup wanted items ≡ none
    → lookup wanted (insert id item items) ≡ none
lookup-insert-eq-none id wanted item items differs h =
    ground (arith, lookup-insert id wanted item items, eq_iff wanted id, eq_iff id wanted)

pub insert-IsKeyed :
    {T : Type 0} (id : String) (item : T) (items : List (String × T))
    → IsKeyed items
    → IsKeyed (insert id item items)
unfolding insert
insert-IsKeyed id item [] h = (unfold lookup in refl, tt)
insert-IsKeyed id item ((k, old) ∷ rest) h = elim (Bool-cases (str_eq k id)) [
  | inl same ↦ rw same (ap (λ s. lookup s rest) (sym (str_eq→eq k id same)) ∙ h.0, h.1)
  | inr differs ↦
      rw differs (lookup-insert-eq-none id k item rest differs h.0, insert-IsKeyed id item rest h.1)
]

pub lookup-cons :
    {T : Type 0} (first id : String) (x item : T) (rest : List (String × T))
    → lookup first rest ≡ none
    → lookup id rest ≡ some item
    → lookup id ((first, x) ∷ rest) ≡ some item
unfolding lookup
lookup-cons first id x item rest fresh found = ground (arith, eq_iff first id, fresh, found)

pub lookup-insert-eq-some :
    {T : Type 0} (id wanted : String) (item x : T) (items : List (String × T))
    → lookup wanted (insert id item items) ≡ some x
    → ((wanted ≡ id) × (x ≡ item)) ⊎ ((str_eq id wanted ≡ false) × (lookup wanted items ≡ some x))
lookup-insert-eq-some id wanted item x items h = elim (Bool-cases (str_eq id wanted)) [
  | inl same ↦
      inl (
        sym (str_eq→eq id wanted same),
        ground (arith, h, lookup-insert id wanted item items, same),
      )
  | inr differs ↦ inr (differs, ground (arith, h, lookup-insert id wanted item items, differs))
]

pub lookup-insert_self :
    {T : Type 0} (id : String) (item : T) (items : List (String × T))
    → lookup id (insert id item items) ≡ some item
lookup-insert_self id item items = ground (arith, lookup-insert id id item items, str_eq_refl id)

pub lookup-insert_other :
    {T : Type 0} (id wanted : String) (item x : T) (items : List (String × T))
    → str_eq wanted id ≡ false
    → lookup wanted items ≡ some x
    → lookup wanted (insert id item items) ≡ some x
lookup-insert_other id wanted item x items differs h =
    ground (arith, lookup-insert id wanted item items, eq_iff wanted id, eq_iff id wanted)
