-- ===== src/Documents/RoundTrip.antt =====
-- A stored document gives back the entity that it was made from.
use hexagonal_backend.Common.{ℕ, ◌≡◌, refl, String, if◌then◌else◌, true, arith}
use hexagonal_backend.Common.Text.{is_empty}
use hexagonal_backend.Common.Result.{Result, ok, err}
use hexagonal_backend.Entity.Client.{default_tenant_id}
use hexagonal_backend.Entity.Scope.{new_scope, all_supported}
use hexagonal_backend.Entity.Scope.Words.{fields-join, supported-AreWords}
use hexagonal_backend.Entity.Types.{User, RefreshToken, Grant}
use hexagonal_backend.Documents.{
  UserDoc, user_to_doc, user_to_entity, rt_to_doc, rt_to_entity, grant_to_doc, grant_to_entity,
}
use hexagonal_backend.Documents.Cipher.{Cipher, Library, IsSound, encrypt, decrypt-encrypt}

-- A stored user is read back as it was, its email decrypted, but for a tenant id that was empty,
-- which is read as the default one.
pub user_to_entity-user_to_doc :
    {Byte : Type 0} (lib : Library Byte) (c : Cipher Byte) (n : ℕ) (u : User) (d : UserDoc)
    → IsSound lib c
    → user_to_doc lib c n u ≡ ok d
    → user_to_entity lib c d
      ≡ ok
          (record u { tenant_id = if is_empty u.tenant_id then default_tenant_id else u.tenant_id })
unfolding user_to_doc user_to_entity
user_to_entity-user_to_doc lib c n u d s h = by_email (encrypt lib c n u.email) refl
  where
    by_email :
        (r : Result String)
        → encrypt lib c n u.email ≡ r
        → user_to_entity lib c d
          ≡ ok (record u {
            tenant_id = if is_empty u.tenant_id then default_tenant_id else u.tenant_id;
          })
    by_email (err e) p = absurd (ground (arith, h, p))
    by_email (ok ciphertext) p =
        ground (arith, h, p, decrypt-encrypt lib c n u.email ciphertext s p)

-- A stored refresh token is read back as it was, if its scope is not empty and has supported values
-- only, which is what NewScope asks for.
pub rt_to_entity-rt_to_doc :
    (rt : RefreshToken) → new_scope rt.scope ≡ ok rt.scope → rt_to_entity (rt_to_doc rt) ≡ ok rt
unfolding rt_to_doc rt_to_entity
rt_to_entity-rt_to_doc rt h =
    let supported : all_supported rt.scope ≡ true = unfold new_scope in ground (arith, h) in
    rw (fields-join rt.scope (supported-AreWords rt.scope supported), h) refl

pub grant_to_entity-grant_to_doc : (g : Grant) → grant_to_entity (grant_to_doc g) ≡ ok g
unfolding grant_to_doc grant_to_entity
grant_to_entity-grant_to_doc g = refl
