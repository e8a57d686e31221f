-- ===== src/Smtp.antt =====
-- infrastructure/smtp/client.go: the client of the mail relay. net/smtp and the network are a
-- parameter, `Relay`, which may answer each call by the history; the calls with their answers are
-- kept in a log, the newest first. Deadlines are not modelled: a call that times out has failed.
pub mod Message
pub mod Once
pub mod Delivered
pub mod Reconnect
use hexagonal_backend.Common.{
  String, Bool, true, false, Option, none, some, List, [], ◌∷◌, if◌then◌else◌, not,
}

-- A call of net or net/smtp.
pub data Op : Type 0 where
  dial_tcp new_client start_tls : Op
  mail rcpt : String → Op
  data_command : Op
  write_body : String → Op
  end_data reset close_client close_raw : Op

-- A call, and whether it succeeded.
abbrev pub Log : Type 0
Log = List (Op × Bool)

pub record Relay : Type 0 where
  pub refuses : Log → Op → Bool
  pub offers_tls : Log → Bool

-- The errors of the client, by the format that wraps them.
pub data SendError : Type 0 where
  dial_failed handshake_failed start_tls_failed mail_failed : SendError
  rcpt_failed : String → SendError
  data_failed write_failed end_failed : SendError

-- errors.Is(err, errDataSent)
unfoldable pub is_data_sent : SendError → Bool
is_data_sent write_failed = true
is_data_sent end_failed = true
is_data_sent e = false

-- Client, where `connected` is conn != nil. `from` is fixed, and so is the address.
pub record Client : Type 0 where
  pub from : String
  pub connected : Bool
  pub log : Log

-- A returned error, or nil, and the client.
abbrev pub Outcome : Type 0
Outcome = Option SendError × Client

-- if err := ...; err != nil { return err }
unfoldable pub unless_failed : Outcome → (Client → Outcome) → Outcome
unless_failed (some e, c) next = (some e, c)
unless_failed (none, c) next = next c

unfoldable pub note : Op → Bool → Client → Client
note op answered c = record c { log = (op, answered) ∷ c.log }

-- A call whose error is returned in the form of `e`.
unfoldable pub issue : Relay → Op → SendError → Client → Outcome
unfolding note
issue s op e c = if s.refuses c.log op then (some e, note op false c) else (none, note op true c)

-- A call whose error is dropped.
unfoldable pub issue_dropped : Relay → Op → Client → Client
unfolding note
issue_dropped s op c = note op (not (s.refuses c.log op)) c

-- The loop over the recipients.
unfoldable pub rcpts : Relay → List String → Client → Outcome
unfolding unless_failed issue
rcpts s [] c = (none, c)
rcpts s (r ∷ rest) c = unless_failed (issue s (rcpt r) (rcpt_failed r) c) (rcpts s rest)

-- The end of doSend, from the first byte of the body on.
unfoldable pub send_body : Relay → String → Client → Outcome
unfolding unless_failed issue issue_dropped note
send_body s msg c =
    if s.refuses c.log (write_body msg)
    then (some write_failed, issue_dropped s end_data (note (write_body msg) false c))
    else unless_failed (issue s end_data end_failed (note (write_body msg) true c))
        (λ done. (none, issue_dropped s reset done))

-- doSend
unfoldable pub do_send : Relay → List String → String → Client → Outcome
unfolding unless_failed issue rcpts send_body
do_send s to msg c = unless_failed (issue s (mail c.from) mail_failed c) (λ c1.
    unless_failed (rcpts s to c1)
      (λ c2. unless_failed (issue s data_command data_failed c2) (send_body s msg)))

-- The part of dial after the handshake.
unfoldable pub upgrade : Relay → Client → Outcome
unfolding note issue_dropped
upgrade s c =
    let kept : Client → Client = λ c'. record c' { connected = true } in
    if not (s.offers_tls c.log)
    then (none, kept c)
    else if s.refuses c.log start_tls
    then (
      some start_tls_failed,
      issue_dropped s close_raw (issue_dropped s close_client (note start_tls false c)),
    )
    else (none, kept (note start_tls true c))

-- dial
unfoldable pub dial : Relay → Client → Outcome
unfolding unless_failed issue issue_dropped note upgrade
dial s c = unless_failed (issue s dial_tcp dial_failed c) (λ raw.
    if s.refuses raw.log new_client
    then (some handshake_failed, issue_dropped s close_raw (note new_client false raw))
    else upgrade s (note new_client true raw))

-- closeConn
unfoldable pub close_conn : Relay → Client → Client
unfolding issue_dropped
close_conn s c =
    if c.connected then record (issue_dropped s close_client c) { connected = false } else c

-- Send after its first try.
unfoldable pub retry : Relay → List String → String → Outcome → Outcome
unfolding is_data_sent close_conn unless_failed dial do_send
retry s to msg (none, c) = (none, c)
retry s to msg (some e, c) =
    let closed = close_conn s c in
    if is_data_sent e then (some e, closed) else unless_failed (dial s closed) (do_send s to msg)

-- Send, which holds the lock throughout.
unfoldable pub send : Relay → List String → String → Client → Outcome
unfolding unless_failed dial do_send retry
send s to msg c =
    unless_failed (if c.connected then (none, c) else dial s c)
      (λ ready. retry s to msg (do_send s to msg ready))

-- Close
unfoldable pub close : Relay → Client → Client
unfolding close_conn
close s c = close_conn s c
