-- ===== src/World/Stores/Rows.antt =====
-- Looking up and writing rows of a table.
use hexagonal_backend.Common.{
  ℕ, ◌+◌, String, ◌≡◌, refl, Bool, true, not, ◌&&◌, ◌||◌, some, is_some, List, [], ◌∷◌, arith,
  eq_iff,
}
use hexagonal_backend.Common.Text.{str_eq, str_eq_refl}
use hexagonal_backend.Entity.Types.{RefreshToken}
use hexagonal_backend.Env.{Env}
use hexagonal_backend.World.Stores.{find_row, upsert, revoke_rows}

module _ {A : Type 0} where
  pub find_row-fits :
      (test : A → Bool) (rows : List A) (x : A) → find_row test rows ≡ some x → test x ≡ true
  unfolding find_row
  find_row-fits test [] x h = cc
  find_row-fits test (y ∷ rows) x h = ground (arith, find_row-fits test rows x)

  pub find_row-upsert :
      (id : A → String) (x : A) (rows : List A)
      → find_row (λ y. str_eq (id y) (id x)) (upsert id x rows) ≡ some x
  unfolding find_row upsert
  find_row-upsert id x [] = rw (str_eq_refl (id x)) refl
  find_row-upsert id x (y ∷ rows) = ground (arith, str_eq_refl (id x), find_row-upsert id x rows)

-- Every row that the test selects is revoked.
unfoldable pub all_revoked : (RefreshToken → Bool) → List RefreshToken → Bool
all_revoked test [] = true
all_revoked test (rt ∷ rows) = (not (test rt) || is_some rt.revoked_at) && all_revoked test rows

abbrev pub of_grant : String → RefreshToken → Bool
of_grant grant_id rt = str_eq rt.grant_id grant_id

pub revoke_rows-all_revoked :
    (env : Env) (g : String) (tick : ℕ) (rows : List RefreshToken)
    → all_revoked (of_grant g) (revoke_rows env (of_grant g) tick rows).0 ≡ true
unfolding all_revoked revoke_rows
revoke_rows-all_revoked env g tick [] = refl
revoke_rows-all_revoked env g tick (rt ∷ rows) = ground (
  arith,
  eq_iff rt.grant_id g,
  revoke_rows-all_revoked env g tick rows,
  revoke_rows-all_revoked env g (tick + 1) rows,
)
