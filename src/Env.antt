-- ===== src/Env.antt =====
-- What the program does not implement: the clock, randomness, the failures of the stores, hashing,
-- bcrypt, the JWT library's signatures, the Unicode tables, URL parsing and the struct validator.
-- Every reading is numbered, so two readings of the clock may differ.
use Prim.Native.Char.{Char}
use hexagonal_backend.Common.{ℕ, String, Bool, true, false, Option, List}
use hexagonal_backend.Common.Time.{Time}
use hexagonal_backend.Entity.Types.{Client}

-- The claims of core/jwt/jwt.go.
pub record Claims : Type 0 where
  pub subject : String
  pub scope : String
  pub issuer : String
  pub audience : List String
  pub id : String
  pub expires_at : Option Time
  pub issued_at : Option Time
  pub grant_id : String

-- port.IDTokenArgs
pub record IdTokenArgs : Type 0 where
  pub user_id : String
  pub client_id : String
  pub email : String
  pub nonce : String
  pub grant_id : String
  pub email_verified : Bool
  pub expire_secs : ℕ

-- What the JWT library's signed claims hold beside `Claims`.
pub record SignedClaims : Type 0 where
  pub claims : Claims
  pub token_use : String

-- A parsed URL: url.IsAbs, Host, Fragment and String.
pub record Url : Type 0 where
  pub is_abs : Bool
  pub host : String
  pub fragment : String
  pub text : String

pub record Env : Type 0 where
  -- the n-th time.Now()
  pub time : ℕ → Time
  -- the n-th uuid.NewString() and random.Token()
  pub uuid : ℕ → String
  pub token : ℕ → Option String
  -- does the n-th call of a store fail?
  pub fault : ℕ → Bool
  -- hex(sha256(s)) and base64url(sha256(s))
  pub sha256_hex : String → String
  pub sha256_base64 : String → String
  -- bcrypt with the n-th salt; it refuses a password of more than 72 bytes
  pub bcrypt_generate : ℕ → ℕ → String → Option String
  pub bcrypt_matches : String → String → Bool
  pub bcrypt_cost : String → Option ℕ
  -- the JWT library: RS256 signing and verification
  pub sign_access : SignedClaims → Option String
  pub sign_id : IdTokenArgs → Time → Option String
  pub verify : String → Option SignedClaims
  -- the configuration: the registered clients, the allowlists, and what is wired in
  pub clients : List Client
  pub scope_allowlist : List String
  pub post_logout_redirect_allowlist : List String
  pub has_cache : Bool
  pub has_email_sender : Bool
  pub issuer : String
  -- unicode.IsUpper, IsLower, IsDigit, and IsPunct or IsSymbol
  pub is_upper : Char → Bool
  pub is_lower : Char → Bool
  pub is_digit : Char → Bool
  pub is_special : Char → Bool
  -- url.Parse
  pub parse_url : String → Option Url
  -- strings.EqualFold, strings.TrimSpace, and strings.ToLower of strings.TrimSpace
  pub equal_fold : String → String → Bool
  pub trim_space : String → String
  pub lower_trimmed : String → String
  -- the URL with its query parameters set
  pub with_query : String → List (String × String) → String
  -- the struct validator's rule uuid
  pub valid_uuid : String → Bool

-- The environment in which every store answers and a cache is configured.
abbrev pub healthy : Env → Env
healthy env = record env { fault = λ _. false; has_cache = true }
