-- ===== src/Tests/Mail.antt =====
-- The mail client at a relay that has dropped the connection that the client has open.
use hexagonal_backend.Common.{
  ◌≡◌, refl, true, false, ◌&&◌, ◌+◌, ◌==◌, Bool, none, [], ◌∷◌, ◌<◌, arith, String, List,
}
use hexagonal_backend.Smtp.{Op, mail, Log, Relay, Client, send, do_send, is_data_sent, mail_failed}
use hexagonal_backend.Smtp.Message.{build_message}
use hexagonal_backend.Smtp.Once.{bodies, transmitted, send_once}
use hexagonal_backend.Smtp.Reconnect.{closes, send_reconnects}

abbrev is_mail : Op → Bool
is_mail (mail from) = true
is_mail op = false

-- It answers once the client has closed that connection.
abbrev relay : Relay
relay = record { refuses = λ log op. closes log == 0 && is_mail op; offers_tls = λ log. true }

abbrev client : Client
client = record { from = "app@example.com"; connected = true; log = [] }

abbrev recipients : List String
recipients = "jane@example.com" ∷ "joe@example.com" ∷ []

abbrev message : String
message = build_message "app@example.com" "jane@example.com" "Hello" "Hi\r\n\r\n"

message_text :
    message ≡ "To: jane@example.com\r\nFrom: app@example.com\r\nSubject: Hello\r\n\r\nHi\r\n"
unfolding build_message
message_text = refl

send_once_example :
    let (answer, after) = send relay recipients message client in
    bodies after.log ≡ bodies client.log + transmitted answer
send_once_example = send_once relay recipients message client

answers_later :
    (log : Log) (op : Op)
    → closes (do_send relay recipients message client).1.log < closes log
    → relay.refuses log op ≡ false
unfolding do_send closes
answers_later log op h = ground (arith, h)

send_reconnects_example : (send relay recipients message client).0 ≡ none
unfolding do_send is_data_sent closes
send_reconnects_example =
    send_reconnects relay recipients message client mail_failed refl refl refl answers_later
