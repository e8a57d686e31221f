-- ===== src/Smtp/Message.antt =====
-- The messages: client.go's BuildMessage, and modules/auth/adapter/out/email_sender.go.
use Prim.Native.Char.{Char, code}
use Prim.Native.String.{◌++◌}
use hexagonal_backend.Common.{String, Bool, Option, none, [], ◌∷◌, ◌&&◌, ◌||◌, ◌==◌, if◌then◌else◌}
use hexagonal_backend.Common.Text.{is_empty}
use hexagonal_backend.Smtp.{Relay, SendError, Client, send}

abbrev is_break : Char → Bool
is_break c = code c == 13 || code c == 10

-- strings.TrimRight(s, "\r\n")
unfoldable pub trim_breaks : String → String
trim_breaks String.[] = ""
trim_breaks (String.◌∷◌ c s) =
    let kept = trim_breaks s in if is_empty kept && is_break c then "" else String.◌∷◌ c kept

-- BuildMessage
unfoldable pub build_message : String → String → String → String → String
unfolding trim_breaks
build_message from to subject body =
    "To: "
    ++ to
    ++ "\r\nFrom: "
    ++ from
    ++ "\r\nSubject: "
    ++ subject
    ++ "\r\n\r\n"
    ++ trim_breaks body
    ++ "\r\n"

-- SmtpEmailSender
pub record SmtpEmailSender : Type 0 where
  pub client : Client
  pub app_base_url : String

abbrev reset_body : String → String
reset_body reset_link =
    "Click the link below to reset your password:\r\n\r\n" ++ reset_link
    ++ "\r\n\r\nThis link expires in 15 minutes."

-- SmtpEmailSender.SendPasswordResetEmail
unfoldable pub send_password_reset_email :
    Relay → SmtpEmailSender → String → String → Option SendError × SmtpEmailSender
unfolding build_message send
send_password_reset_email s sender to_email raw_token =
    let reset_link = sender.app_base_url ++ "/reset-password?token=" ++ raw_token in
    let msg =
      build_message sender.client.from to_email "Reset your password" (reset_body reset_link) in
    let (answer, client) = send s (to_email ∷ []) msg sender.client in
    (answer, record sender { client = client })

-- LogEmailSender.SendPasswordResetEmail, which only logs.
unfoldable pub log_password_reset_email : String → String → Option SendError
log_password_reset_email to_email raw_token = none
