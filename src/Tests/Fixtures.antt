-- ===== src/Tests/Fixtures.antt =====
-- A small deployment: one confidential client, one user, and hashes that are the text itself.
use Prim.Native.Char.{code as point}
use hexagonal_backend.Common.{◌&&◌, leb, ◌+◌, ◌*◌, true, false, none, some, [], ◌∷◌, if◌then◌else◌}
use hexagonal_backend.Common.Text.{str_eq}
use hexagonal_backend.Common.Time.{hour}
use hexagonal_backend.Entity.Types.{
  User, Client, RefreshToken, Grant, AuthCode, secret_basic, AuthorizeRequest,
}
use hexagonal_backend.Env.{Env, Claims, SignedClaims}
use hexagonal_backend.World.{World, code}

abbrev pub app : Client
app = record {
  id = "app";
  tenant_id = "default";
  auth_method = secret_basic;
  secret_hash = some "s3cret";
  redirect_uris = "https://app/cb" ∷ [];
  allowed_grants = "authorization_code" ∷ "refresh_token" ∷ [];
}

abbrev pub claims : Claims
claims = record {
  subject = "u1";
  scope = "openid";
  issuer = "https://issuer";
  audience = "APP_ID" ∷ [];
  id = "jti-1";
  expires_at = some (2 * hour);
  issued_at = some hour;
  grant_id = "g1";
}

abbrev pub signed : SignedClaims
signed = record { claims = claims; token_use = "access" }

abbrev pub env : Env
env = record {
  time = λ n. hour + n;
  uuid = λ n. "id";
  token = λ n. some "raw";
  fault = λ n. false;
  sha256_hex = λ s. s;
  sha256_base64 = λ s. s;
  bcrypt_generate = λ salt cost p. some p;
  bcrypt_matches = λ h p. str_eq h p;
  bcrypt_cost = λ h. some 12;
  sign_access = λ c. some "at";
  sign_id = λ c t. some "id";
  verify = λ s. if str_eq s "jwt" then some signed else none;
  clients = app ∷ [];
  scope_allowlist = "openid" ∷ [];
  post_logout_redirect_allowlist = "https://app/bye" ∷ [];
  has_cache = true;
  has_email_sender = true;
  issuer = "https://issuer";
  is_upper = λ c. leb 65 (point c) && leb (point c) 90;
  is_lower = λ c. leb 97 (point c) && leb (point c) 122;
  is_digit = λ c. leb 48 (point c) && leb (point c) 57;
  is_special = λ c. leb 33 (point c) && leb (point c) 47;
  parse_url = λ s. some (record { is_abs = true; host = "app"; fragment = ""; text = s });
  equal_fold = str_eq;
  trim_space = λ s. s;
  lower_trimmed = λ s. s;
  with_query = λ s ps. s;
  valid_uuid = λ s. true;
}

abbrev pub user : User
user = record {
  created_at = 0;
  updated_at = 0;
  id = "u1";
  tenant_id = "default";
  username = "ann";
  nickname = "ann";
  password = "Passw0rd!";
  email = "ann@app";
  email_verified = true;
  password_reset_token_hash = some "reset";
  password_reset_expires_at = some (2 * hour);
  sessions_invalidated_at = none;
  failed_login_attempts = 4;
  locked_until = none;
}

abbrev pub token : RefreshToken
token = record {
  id = "t1";
  user_id = "u1";
  client_id = "app";
  grant_id = "g1";
  token_hash = "old";
  scope = "openid" ∷ [];
  device_id = "";
  authenticated_at = 0;
  created_at = 0;
  expires_at = 3 * hour;
  revoked_at = none;
}

abbrev pub spent_token : RefreshToken
spent_token = record token { id = "t0"; token_hash = "spent"; revoked_at = some 1 }

abbrev pub new_token : RefreshToken
new_token = record token { id = "t2"; token_hash = "new" }

abbrev pub grant : Grant
grant = record {
  id = "g1";
  user_id = "u1";
  client_id = "app";
  device_id = "";
  authenticated_at = 0;
  created_at = 0;
  expires_at = 4 * hour;
  revoked_at = none;
}

abbrev pub auth_code : AuthCode
auth_code = record {
  code = "c0de";
  user_id = "u1";
  client_id = some "app";
  redirect_uri = "https://app/cb";
  scope = "openid" ∷ [];
  nonce = none;
  code_challenge = none;
  code_challenge_method = none;
  expires_at = 2 * hour;
}

abbrev pub session : AuthorizeRequest
session = record {
  id = "s1";
  created_at = 0;
  csrf_token = "csrf";
  client_id = "app";
  redirect_uri = "https://app/cb";
  scope = "openid" ∷ [];
  state = none;
  nonce = none;
  code_challenge = none;
  code_challenge_method = none;
  failed_attempts = 2;
}

abbrev pub world : World
world = record {
  ticks = 0;
  draws = 0;
  calls = 0;
  users = user ∷ [];
  tokens = spent_token ∷ token ∷ [];
  grants = grant ∷ [];
  cache = ("auth:code:c0de", record { value = code auth_code; expires_at = none }) ∷ [];
  mails = [];
  revocations = 0;
}
