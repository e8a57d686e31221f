-- ===== src/Web/Headers.antt =====
-- handler/web/middleware: security_headers.go, cookie_secure.go and oauth2_errors.go.
use Prim.Native.String.{◌++◌}
use hexagonal_backend.Common.{String, Bool, true, none, if◌then◌else◌}
use hexagonal_backend.Common.Text.{str_eq}
use hexagonal_backend.Web.{header, set_key, flag, cookie_secure_key, oauth2_error_format_key}
use hexagonal_backend.Web.Handler.{Handler}

-- SecurityHeaders
unfoldable pub security_headers : Handler
security_headers c = header "Pragma" "no-cache" (
    header "Cache-Control" "no-store" (
      header "Referrer-Policy" "no-referrer" (
        header "X-Content-Type-Options" "nosniff" (
          header "Content-Security-Policy" "frame-ancestors 'none'"
            (header "X-Frame-Options" "DENY" c)))))

-- CachePublic, given the seconds as text
unfoldable pub cache_public : String → Handler
cache_public seconds c =
    let c' = header "Cache-Control" ("public, max-age=" ++ seconds) c in
    record c' { headers = λ name. if str_eq "Pragma" name then none else c'.headers name }

-- CookieSecure
unfoldable pub cookie_secure : Bool → Handler
cookie_secure enabled c = set_key cookie_secure_key (flag enabled) c

-- OAuth2Errors
unfoldable pub oauth2_errors : Handler
oauth2_errors c = set_key oauth2_error_format_key (flag true) c
