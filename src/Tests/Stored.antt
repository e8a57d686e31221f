-- ===== src/Tests/Stored.antt =====
-- The file repository and the documents at concrete inputs.
use Prim.Native.Char.{Char}
use mathlib.Core.List.{List}
use mathlib.Core.Path.{subst}
use text.Mathlib.TextBridge.{to_list, of_list, to_list-of_list, of_list-to_list}
use hexagonal_backend.Common.{
  ℕ, String, ◌≡◌, ◌⊎◌, inl, inr, refl, sym, ap, ◌∙◌, true, false, Bool-cases, is_some, Option, none,
  some, [], ◌∷◌, ◌++◌, ◌==◌, if◌then◌else◌, arith, eq_iff,
}
use hexagonal_backend.Common.Time.{hour}
use hexagonal_backend.Common.Text.{is_empty}
use hexagonal_backend.Common.Result.{Result, ok, err}
use hexagonal_backend.Documents.{
  UserDoc, user_to_doc, user_to_entity, RefreshTokenDoc, rt_to_doc, rt_to_entity,
  refresh_token_model, reflect_refresh_token,
}
use hexagonal_backend.Documents.Cipher.{Aead, Library, Cipher, IsSound, encrypt}
use hexagonal_backend.Documents.RoundTrip.{user_to_entity-user_to_doc, rt_to_entity-rt_to_doc}
use hexagonal_backend.Entity.Client.{default_tenant_id}
use hexagonal_backend.Entity.Scope.{new_scope, all_supported}
use hexagonal_backend.Entity.Types.{RefreshToken}
use hexagonal_backend.Errors.{backend, not_found}
use hexagonal_backend.FileRepo.{
  Model, FileRepository, Call, create, update_one, perform, find_by_field, find_in_index,
  build_index, index_item, assign, save, docs_of, new_repository, load_from_file, entities,
}
use hexagonal_backend.FileRepo.Durable.{IsSaved, perform-IsSaved, crash_recovers}
use hexagonal_backend.FileRepo.Field.{scan_by_field, string_field_value, string_of_kind}
use hexagonal_backend.FileRepo.Indexes.{IsUnique}
use hexagonal_backend.FileRepo.Indexes.Update.{IsFree}
use hexagonal_backend.FileRepo.Keyed.{IsKeyed}
use hexagonal_backend.FileRepo.Reach.Steps.{opened, and_then, Reachable-find_by_field}
use hexagonal_backend.FileRepo.Reopened.{IsCodec, Holds, encoded-Holds}
use hexagonal_backend.FileRepo.Tables.{IsById, rows_of, save-upsert}
use hexagonal_backend.FileRepo.WriteFile.{
  Attempt, Disk, start, run_calls, write_to_file, some_call_fails, write_to_file_outcome,
}
use hexagonal_backend.Tests.Codec.{encode_docs, decode_docs, decode-encode_docs}
use hexagonal_backend.Tests.Fixtures.{token, new_token, user}
use hexagonal_backend.World.Map.{lookup}
use hexagonal_backend.World.Stores.{upsert}

-- The file of refresh tokens.
abbrev tokens_model : Model RefreshToken RefreshTokenDoc
tokens_model = refresh_token_model encode_docs decode_docs

tokens-IsCodec : IsCodec tokens_model
tokens-IsCodec docs content k e =
    (docs, decode-encode_docs docs content e, record { keyed = k; agree = λ id. refl })

-- What NewScope accepts.
abbrev Storable : RefreshToken → Type 0
Storable rt = new_scope rt.scope ≡ ok rt.scope

token-Storable : Storable token
unfolding new_scope all_supported
token-Storable = refl

-- Every call succeeds, or Rename fails.
abbrev fine : Attempt
fine = record {
  open_fails = false;
  encoded = none;
  sync_fails = false;
  close_fails = false;
  rename_fails = false;
  remove_fails = false;
}

abbrev unlucky : Attempt
unlucky = record fine { rename_fails = true }

abbrev first_tokens : List (String × RefreshToken)
first_tokens = ("t1", token) ∷ []

abbrev disk : Disk
disk = record { file = encode_docs (docs_of tokens_model first_tokens); tmp = none }

abbrev repo : FileRepository RefreshToken
repo = record { items = first_tokens; indexed_fields = λ field. none; disk = disk }

-- The update of RevokeByTokenHash, at a time.
abbrev revoking : RefreshToken → Result RefreshToken
revoking rt =
    if is_some rt.revoked_at then err not_found else ok (record rt { revoked_at = some hour })

abbrev revoked : RefreshToken → RefreshToken
revoked rt = record rt { revoked_at = some hour }

revoking-eq-ok : (x y : RefreshToken) → revoking x ≡ ok y → revoked x ≡ y
revoking-eq-ok x y e = elim (Bool-cases (is_some x.revoked_at)) [
  | inl before ↦
      absurd (let failed : err not_found ≡ ok y = rw before at e in ground (arith, failed))
  | inr live ↦
      (let done : ok (revoked x) ≡ ok y = rw live at e in
        let same : revoked x ≡ y = ground (arith, done) in same)
]

abbrev revoke : Call RefreshToken
revoke = update_one fine "TokenHash" "old" revoking

abbrev adding : Call RefreshToken
adding = create fine "TokenHash" "new" new_token

write_to_file_outcome_example :
    let (r, d') = write_to_file unlucky disk in
    (some_call_fails unlucky ≡ false → (r ≡ ok tt) × (d'.file ≡ unlucky.encoded) × (d'.tmp ≡ none))
    × (some_call_fails unlucky ≡ true
        → (r ≡ err backend)
          × (d'.file ≡ disk.file)
          × (unlucky.open_fails ≡ false → unlucky.remove_fails ≡ false → d'.tmp ≡ none))
write_to_file_outcome_example = write_to_file_outcome unlucky disk

first_docs-entities : entities tokens_model (docs_of tokens_model first_tokens) ≡ ok first_tokens
unfolding entities
first_docs-entities = rw (rt_to_entity-rt_to_doc token token-Storable) refl

opens :
    (file : Option String) (content : String)
    → file ≡ some content
    → decode_docs content ≡ some (docs_of tokens_model first_tokens)
    → new_repository tokens_model false (record { file = file; tmp = none })
      ≡ ok (record {
        items = first_tokens;
        indexed_fields = λ field. none;
        disk = record { file = file; tmp = none };
      })
unfolding new_repository load_from_file
opens file content there read = rw (there, read, first_docs-entities) refl

repo-opened : new_repository tokens_model false disk ≡ ok repo
unfolding encode_docs
repo-opened =
    opens (encode_docs (docs_of tokens_model first_tokens)) _ refl
      (decode-encode_docs (docs_of tokens_model first_tokens) _ refl)

only_token : (id : String) (x : RefreshToken) → lookup id first_tokens ≡ some x → id ≡ "t1"
unfolding lookup
only_token id x h = ground (arith, h, eq_iff "t1" id)

repo-IsUnique : IsUnique tokens_model "TokenHash" first_tokens
repo-IsUnique a b value x y p q v w = only_token a x p ∙ sym (only_token b y q)

-- The token that is found is the one that is written back.
revoke-respects :
    (x y : RefreshToken)
    → (find_by_field tokens_model "TokenHash" "old" repo).0 ≡ ok x
    → revoking x ≡ ok y
    → IsFree tokens_model "TokenHash" first_tokens y.id y
unfolding find_by_field build_index index_item find_in_index assign lookup string_field_value
    string_of_kind reflect_refresh_token
revoke-respects x y found e value other z v there w =
    let same : token ≡ x = ground (arith, found) in
    only_token other z there
    ∙ ap {A = RefreshToken} (λ t. t.id) same
    ∙ ap {A = RefreshToken} (λ t. t.id) (revoking-eq-ok x y e)

abbrev after : FileRepository RefreshToken
after = perform tokens_model adding (perform tokens_model revoke repo)

Reachable-find_by_field_example :
    (find_by_field tokens_model "TokenHash" "new" after).0
    ≡ scan_by_field tokens_model.reflect after.items "TokenHash" "new"
unfolding string_field_value string_of_kind reflect_refresh_token
Reachable-find_by_field_example =
    Reachable-find_by_field tokens_model "TokenHash" {r = after} "new"
      (λ item. (some item.token_hash, refl))
      (and_then adding
        (and_then revoke
          (opened false disk repo repo-opened (unfold lookup in refl, tt) repo-IsUnique)
          revoke-respects)
        (inl (refl, refl)))

repo-IsSaved : IsSaved tokens_model Storable repo
unfolding encode_docs
repo-IsSaved = record {
  keyed = (unfold lookup in refl, tt);
  storable = (token-Storable, tt);
  held =
      encoded-Holds tokens_model Storable rt_to_entity-rt_to_doc tokens-IsCodec first_tokens
        (unfold lookup in refl, tt) (token-Storable, tt) (λ h. absurd (ground (arith, h)));
}

perform-IsSaved_example : IsSaved tokens_model Storable (perform tokens_model revoke repo)
perform-IsSaved_example =
    perform-IsSaved tokens_model tokens-IsCodec Storable rt_to_entity-rt_to_doc revoke repo
      (λ x y s e. subst Storable (revoking-eq-ok x y e) s) repo-IsSaved

abbrev later_tokens : List (String × RefreshToken)
later_tokens = ("t1", revoked token) ∷ ("t2", new_token) ∷ []

later-IsKeyed : IsKeyed later_tokens
unfolding lookup
later-IsKeyed = (refl, (refl, tt))

crash_recovers_example :
    let cut =
      (run_calls 4
        (record unlucky { encoded = encode_docs (docs_of tokens_model later_tokens) })
        (start disk)).disk in
    Holds tokens_model cut.file first_tokens ⊎ Holds tokens_model cut.file later_tokens
crash_recovers_example =
    crash_recovers tokens_model tokens-IsCodec Storable rt_to_entity-rt_to_doc 4 unlucky
      first_tokens later_tokens disk later-IsKeyed (token-Storable, (token-Storable, tt))
      repo-IsSaved.held

save-upsert_example :
    let (saved, r') = save tokens_model fine new_token repo in
    IsById tokens_model r'.items
    × (rows_of tokens_model r'.items
        ≡ elim saved [ ok u ↦ upsert (λ t. t.id) new_token (token ∷ []) | err e ↦ token ∷ [] ])
save-upsert_example = save-upsert tokens_model fine new_token repo (refl, tt)

-- Bytes are characters; a nonce is one byte, and nothing is hidden.
abbrev plain_aead : Aead Char
plain_aead = record { nonce_size = 1; seal = λ nonce b. b; open_sealed = λ nonce b. some b }

nonce_byte : ℕ → ℕ → Option (List Char)
nonce_byte n size = if size == 1 then some ("x" ∷ []) else none

abbrev plain_library : Library Char
plain_library = record {
  new_gcm = λ key. some plain_aead;
  hmac_sha256 = λ key b. key ++ b;
  base64_encode = of_list;
  base64_decode = λ s. some (to_list s);
  hex_encode = of_list;
  random = nonce_byte;
  bytes = to_list;
  text = of_list;
}

abbrev plain_cipher : Cipher Char
plain_cipher = record { aead = plain_aead; blind_index_key = "k" ∷ [] }

plain-IsSound : IsSound plain_library plain_cipher
unfolding nonce_byte
plain-IsSound = record {
  base64 = λ b. ap some (to_list-of_list b);
  strings = of_list-to_list;
  reads = λ n size b h. ground (arith, h);
  opens = λ nonce b size. refl;
}

abbrev stored_user : UserDoc
stored_user = record {
  id = user.id;
  tenant_id = user.tenant_id;
  username = user.username;
  nickname = user.nickname;
  password = user.password;
  email_ciphertext = of_list (("x" ∷ []) ++ to_list user.email);
  email_blind_index = of_list (("k" ∷ []) ++ to_list user.email);
  email_verified = user.email_verified;
  password_reset_token_hash = user.password_reset_token_hash;
  password_reset_expires_at = user.password_reset_expires_at;
  sessions_invalidated_at = user.sessions_invalidated_at;
  failed_login_attempts = user.failed_login_attempts;
  locked_until = user.locked_until;
  created_at = user.created_at;
  updated_at = user.updated_at;
}

user_to_entity-user_to_doc_example :
    user_to_entity plain_library plain_cipher stored_user
    ≡ ok (record user {
      tenant_id = if is_empty user.tenant_id then default_tenant_id else user.tenant_id;
    })
unfolding user_to_doc encrypt nonce_byte hexagonal_backend.Documents.Cipher.blind_index
user_to_entity-user_to_doc_example =
    user_to_entity-user_to_doc plain_library plain_cipher 0 user stored_user plain-IsSound refl

rt_to_entity-rt_to_doc_example : rt_to_entity (rt_to_doc token) ≡ ok token
unfolding new_scope hexagonal_backend.Entity.Scope.all_supported
rt_to_entity-rt_to_doc_example = rt_to_entity-rt_to_doc token refl
