-- ===== src/Command/RefreshToken/Failure.antt =====
-- A rotation that fails has issued no refresh token, though it is not undone.
use mathlib.Core.List.{Memᴰ}
use mathlib.Core.Path.{subst}
use hexagonal_backend.Common.{
  String, ◌≡◌, ap, ◌∙◌, ◌⊎◌, inl, inr, true, false, is_some, List, [], ◌∷◌, Bool-cases, arith,
}
use hexagonal_backend.Common.Text.{str_eq}
use hexagonal_backend.Common.Result.{err, is_ok}
use hexagonal_backend.Entity.Types.{RefreshToken}
use hexagonal_backend.Env.{Env}
use hexagonal_backend.Errors.{Error}
use hexagonal_backend.World.{World}
use hexagonal_backend.World.Stores.{upsert, save_token, revoke_token_by_hash, do_in_transaction}
use hexagonal_backend.Command.RefreshToken.{
  rotate_rows, update_refresh_token, check_and_extend_grant,
}
use hexagonal_backend.Command.RefreshToken.Extension.{check_and_extend_grant-tokens}
use hexagonal_backend.Command.RefreshToken.Rotation.{revoke-Revoked}

upsert-Memᴰ :
    (rt new : RefreshToken) (rows : List RefreshToken)
    → Memᴰ rt (upsert (λ t. t.id) new rows)
    → (rt ≡ new) ⊎ Memᴰ rt rows
unfolding upsert
upsert-Memᴰ rt new [] (Memᴰ.head e) = inl e
upsert-Memᴰ rt new [] (Memᴰ.tail n) = elim n [ ]
upsert-Memᴰ rt new (y ∷ rows) m =
    by_id (Bool-cases (str_eq y.id new.id)) (upsert-Memᴰ rt new rows) m
  where
    replaced : Memᴰ rt (new ∷ rows) → (rt ≡ new) ⊎ Memᴰ rt (y ∷ rows)
    replaced (Memᴰ.head e) = inl e
    replaced (Memᴰ.tail n) = inr (Memᴰ.tail n)

    passed :
        (Memᴰ rt (upsert (λ t. t.id) new rows) → (rt ≡ new) ⊎ Memᴰ rt rows)
        → Memᴰ rt (y ∷ upsert (λ t. t.id) new rows)
        → (rt ≡ new) ⊎ Memᴰ rt (y ∷ rows)
    passed later (Memᴰ.head e) = inr (Memᴰ.head e)
    passed later (Memᴰ.tail n) = elim (later n) [ inl e ↦ inl e | inr k ↦ inr (Memᴰ.tail k) ]

    by_id :
        (str_eq y.id new.id ≡ true) ⊎ (str_eq y.id new.id ≡ false)
        → (Memᴰ rt (upsert (λ t. t.id) new rows) → (rt ≡ new) ⊎ Memᴰ rt rows)
        → Memᴰ rt (upsert (λ t. t.id) new (y ∷ rows))
        → (rt ≡ new) ⊎ Memᴰ rt (y ∷ rows)
    by_id (inl same) later n = replaced (rw same at n)
    by_id (inr differs) later n = passed later (rw differs at n)

-- No row is new and live.
abbrev NoneIssued : List RefreshToken → List RefreshToken → Type 0
NoneIssued before after =
    (rt : RefreshToken) → Memᴰ rt after → Memᴰ rt before ⊎ (is_some rt.revoked_at ≡ true)

revoke_failed-tokens :
    (hashed : String) (env : Env) (w : World)
    → is_ok (revoke_token_by_hash hashed env w).0 ≡ false
    → (revoke_token_by_hash hashed env w).1.tokens ≡ w.tokens
unfolding revoke_token_by_hash save_token
revoke_failed-tokens hashed env w h = ground (arith, h)

revoke-NoneIssued :
    (hashed : String) (env : Env) (w : World)
    → NoneIssued w.tokens (revoke_token_by_hash hashed env w).1.tokens
revoke-NoneIssued hashed env w rt m =
    elim (Bool-cases (is_ok (revoke_token_by_hash hashed env w).0)) [
      | inr failed ↦ inl (subst (λ l. Memᴰ rt l) (revoke_failed-tokens hashed env w failed) m)
      | inl done ↦
          let r = revoke-Revoked hashed env w done in
          elim (upsert-Memᴰ rt _ w.tokens (subst (λ l. Memᴰ rt l) r.written m)) [
            | inl same ↦ inr (ap (λ t. is_some t.revoked_at) same)
            | inr before ↦ inl before
          ]
    ]

save_failed-tokens :
    (rt : RefreshToken) (env : Env) (w : World)
    → is_ok (save_token rt env w).0 ≡ false
    → (save_token rt env w).1.tokens ≡ w.tokens
unfolding save_token
save_failed-tokens rt env w h = ground (arith, h)

-- The table after a rotation that failed is as the check of the grant left it, or as the revocation
-- did.
rotate_rows-tokens :
    (old new : RefreshToken) (env : Env) (w : World)
    → is_ok (rotate_rows old new env w).0 ≡ false
    → let u = (check_and_extend_grant old.grant_id new.expires_at env w).1 in
      let v = (rotate_rows old new env w).1 in
      (v.tokens ≡ u.tokens) ⊎ (v.tokens ≡ (revoke_token_by_hash old.token_hash env u).1.tokens)
unfolding rotate_rows
rotate_rows-tokens old new env w h =
    let (checked, u) = check_and_extend_grant old.grant_id new.expires_at env w in
    let x = (revoke_token_by_hash old.token_hash env u).1 in
    elim (Bool-cases (is_ok checked)) [
      | inr c ↦ inl (ground (arith, c))
      | inl c ↦ inr (ground (arith, c, h, save_failed-tokens new env x))
    ]

update-fails :
    (old new : RefreshToken) (env : Env) (w : World) {e : Error}
    → (update_refresh_token old new env w).0 ≡ err e
    → (is_ok (rotate_rows old new env w).0 ≡ false)
      × ((update_refresh_token old new env w).1 ≡ (rotate_rows old new env w).1)
unfolding update_refresh_token do_in_transaction
update-fails old new env w h = (ground (arith, h), ground (arith, h))

-- A rotation that ends in an error, whichever call of the stores has failed, has issued no refresh
-- token: each row is one from before, or is revoked.
pub failed_rotation_issues_none :
    (old new : RefreshToken) (env : Env) (w : World) {e : Error}
    → (update_refresh_token old new env w).0 ≡ err e
    → (rt : RefreshToken) → Memᴰ rt (update_refresh_token old new env w).1.tokens
    → Memᴰ rt w.tokens ⊎ (is_some rt.revoked_at ≡ true)
failed_rotation_issues_none old new env w h rt m =
    let (failed, same) = update-fails old new env w h in
    let u = (check_and_extend_grant old.grant_id new.expires_at env w).1 in
    let checked = check_and_extend_grant-tokens old.grant_id new.expires_at env w in
    let there : Memᴰ rt (rotate_rows old new env w).1.tokens =
      subst (λ v. Memᴰ rt v.tokens) same m in
    elim (rotate_rows-tokens old new env w failed) [
      | inl e ↦ inl (subst (λ l. Memᴰ rt l) (e ∙ checked) there)
      | inr e ↦
          subst (λ l. Memᴰ rt l ⊎ (is_some rt.revoked_at ≡ true)) checked
            (revoke-NoneIssued old.token_hash env u rt (subst (λ l. Memᴰ rt l) e there))
    ]
