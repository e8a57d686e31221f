-- ===== src/Config/Parse.antt =====
-- cmd/auth/config/config.go: the parsing of one variable. A panic is an error with its message.
-- strconv.Atoi and ParseInt agree on a 64-bit machine; time.ParseDuration is a parameter.
use Prim.Native.Char.{Char, code}
use Prim.Native.String.{◌++◌}
use hexagonal_backend.Common.{
  ℕ, zero, suc, ◌+◌, ◌-◌, ◌*◌, ◌/◌, ◌%◌, ◌^◌, String, Bool, true, false, Option, none, some, List,
  [], ◌∷◌, ◌&&◌, ◌||◌, ◌==◌, leb, if◌then◌else◌,
}
use hexagonal_backend.Common.Int.{ℤ, pos, negsuc}
use hexagonal_backend.Common.Text.{is_empty, is_space}
use hexagonal_backend.Common.Result.{Result, ok, err}
use hexagonal_backend.Errors.{plain}

-- strings.Split(raw, sep) for a separator of one character, of which `word` has been read.
split_from : ℕ → String → String → List String
split_from sep word String.[] = word ∷ []
split_from sep word (String.◌∷◌ c s) =
    let here = code c == sep in
    let rest = split_from sep (if here then "" else word ++ String.◌∷◌ c String.[]) s in
    if here then word ∷ rest else rest

trim_left : String → String
unfolding is_space
trim_left String.[] = ""
trim_left (String.◌∷◌ c s) = let rest = trim_left s in if is_space c then rest else String.◌∷◌ c s

trim_right : String → String
unfolding is_space
trim_right String.[] = ""
trim_right (String.◌∷◌ c s) =
    let kept = trim_right s in if is_empty kept && is_space c then "" else String.◌∷◌ c kept

-- strings.TrimSpace
unfoldable pub trim_space : String → String
unfolding trim_left trim_right
trim_space s = trim_left (trim_right s)

unfoldable pub trimmed_parts : List String → List String
unfolding trim_space
trimmed_parts [] = []
trimmed_parts (s ∷ rest) =
    let trimmed = trim_space s in
    let parts = trimmed_parts rest in if is_empty trimmed then parts else trimmed ∷ parts

-- parseCommaSeparated
unfoldable pub parse_comma_separated : String → List String
unfolding split_from trimmed_parts
parse_comma_separated raw = trimmed_parts (split_from 44 "" raw)

-- parseScopeAllowlist
unfoldable pub parse_scope_allowlist : String → List String
unfolding parse_comma_separated
parse_scope_allowlist raw =
    if is_empty raw
    then "openid" ∷ "email" ∷ "profile" ∷ "phone" ∷ []
    else parse_comma_separated raw

-- parseCorsOrigins
unfoldable pub parse_cors_origins : String → List String
unfolding split_from trimmed_parts
parse_cors_origins raw = if is_empty raw then "*" ∷ [] else trimmed_parts (split_from 44 "" raw)

unfoldable pub has_colon : String → Bool
has_colon String.[] = false
has_colon (String.◌∷◌ c s) = code c == 58 || has_colon s

-- normalizePort
unfoldable pub normalize_port : String → String
unfolding has_colon
normalize_port raw = if is_empty raw then "" else if has_colon raw then raw else ":" ++ raw

is_digit : Char → Bool
is_digit c = leb 48 (code c) && leb (code c) 57

-- The digits after a number `n`.
more_digits : ℕ → String → Option ℕ
unfolding is_digit
more_digits n String.[] = some n
more_digits n (String.◌∷◌ c s) =
    let rest = more_digits (n * 10 + (code c - 48)) s in if is_digit c then rest else none

digits : String → Option ℕ
unfolding more_digits
digits s = if is_empty s then none else more_digits 0 s

unfoldable pub in_range : Bool → ℕ → Option ℤ
in_range true zero = some (pos 0)
in_range true (suc n) = if leb (suc n) (2 ^ 63) then some (negsuc n) else none
in_range false n = if leb (n + 1) (2 ^ 63) then some (pos n) else none

signed : Bool → String → Option ℤ
unfolding digits in_range
signed negative s = elim (digits s) [ none ↦ none | some n ↦ in_range negative n ]

-- strconv.ParseInt(raw, 10, 64)
unfoldable pub parse_int : String → Option ℤ
unfolding signed
parse_int String.[] = none
parse_int (String.◌∷◌ c s) =
    if code c == 45
    then signed true s
    else if code c == 43
    then signed false s
    else signed false (String.◌∷◌ c s)

-- if err != nil || n < 0 { panic }
unfoldable pub at_least_zero : String → Option ℤ → Result ℕ
at_least_zero message none = err (plain message)
at_least_zero message (some (negsuc n)) = err (plain message)
at_least_zero message (some (pos n)) = ok n

-- parseRedisDB
unfoldable pub parse_redis_db : String → Result ℕ
unfolding parse_int at_least_zero
parse_redis_db raw =
    if is_empty raw then ok 0 else at_least_zero "invalid REDIS_DB configuration" (parse_int raw)

abbrev pub default_rate_limit_per_min : ℕ
default_rate_limit_per_min = 1000

-- parseRateLimitPerMin
unfoldable pub parse_rate_limit_per_min : String → Result ℕ
unfolding parse_int at_least_zero
parse_rate_limit_per_min raw =
    if is_empty raw
    then ok default_rate_limit_per_min
    else at_least_zero "invalid RATE_LIMIT_PER_MIN configuration" (parse_int raw)

-- time.Minute, in nanoseconds
abbrev pub default_rate_limit_window : ℕ
default_rate_limit_window = 60_000_000_000

unfoldable pub above_zero : Option ℤ → Result ℕ
above_zero (some (pos (suc n))) = ok (suc n)
above_zero d = err (plain "invalid RATE_LIMIT_WINDOW configuration")

-- parseRateLimitWindow
unfoldable pub parse_rate_limit_window : (String → Option ℤ) → String → Result ℕ
unfolding above_zero
parse_rate_limit_window parse_duration raw =
    if is_empty raw then ok default_rate_limit_window else above_zero (parse_duration raw)

digit_of : ℕ → List String → String
digit_of n [] = ""
digit_of zero (d ∷ rest) = d
digit_of (suc n) (d ∷ rest) = digit_of n rest

decimal : ℕ → ℕ → String
unfolding digit_of
decimal zero n = ""
decimal (suc fuel) n =
    let before = decimal fuel (n / 10) in
    (if n / 10 == 0 then "" else before)
    ++ digit_of (n % 10) ("0" ∷ "1" ∷ "2" ∷ "3" ∷ "4" ∷ "5" ∷ "6" ∷ "7" ∷ "8" ∷ "9" ∷ [])

-- strconv.Itoa of a number that is not negative; an int has 19 digits at most.
unfoldable pub itoa : ℕ → String
unfolding decimal
itoa n = decimal 19 n
