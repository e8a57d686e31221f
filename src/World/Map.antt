-- ===== src/World/Map.antt =====
-- Go's map[string]T as an association list, and its laws.
use hexagonal_backend.Common.{
  String, ◌≡◌, refl, List, [], ◌∷◌, Option, none, some, if◌then◌else◌, arith, eq_iff,
}
use hexagonal_backend.Common.Text.{str_eq}

module _ {ℓ} {Item : Type ℓ} where
  -- m[k], with the second result
  unfoldable pub lookup : String → List (String × Item) → Option Item
  lookup wanted [] = none
  lookup wanted ((key, item) ∷ rest) = if str_eq key wanted then some item else lookup wanted rest

  -- m[k] = v
  unfoldable pub insert : String → Item → List (String × Item) → List (String × Item)
  insert new item [] = (new, item) ∷ []
  insert new item ((key, old) ∷ rest) =
      if str_eq key new then (new, item) ∷ rest else (key, old) ∷ insert new item rest

  -- delete(m, k)
  unfoldable pub delete : String → List (String × Item) → List (String × Item)
  delete gone [] = []
  delete gone ((key, item) ∷ rest) =
      if str_eq key gone then delete gone rest else (key, item) ∷ delete gone rest

  pub lookup-insert :
      (new wanted : String) (item : Item) (table : List (String × Item))
      → lookup wanted (insert new item table)
        ≡ (if str_eq new wanted then some item else lookup wanted table)
  unfolding lookup insert
  lookup-insert new wanted item [] = refl
  lookup-insert new wanted item ((key, old) ∷ rest) = ground (
    arith,
    eq_iff key wanted,
    eq_iff key new,
    eq_iff new wanted,
    lookup-insert new wanted item rest,
  )

  pub lookup-delete :
      (gone wanted : String) (table : List (String × Item))
      → lookup wanted (delete gone table)
        ≡ (if str_eq gone wanted then none else lookup wanted table)
  unfolding lookup delete
  lookup-delete gone wanted [] = ground arith
  lookup-delete gone wanted ((key, old) ∷ rest) = ground (
    arith,
    eq_iff key wanted,
    eq_iff key gone,
    eq_iff gone wanted,
    lookup-delete gone wanted rest,
  )
