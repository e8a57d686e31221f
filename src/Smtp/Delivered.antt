-- ===== src/Smtp/Delivered.antt =====
-- What the relay has accepted when client.go's Send returns no error.
use hexagonal_backend.Common.{
  ◌≡◌, refl, sym, ap, Bool, true, none, some, List, [], ◌∷◌, String, Bool-cases, inl, inr, arith,
  not,
}
use mathlib.Core.Path.{subst}
use hexagonal_backend.Smtp.{
  Op, write_body, Log, Relay, SendError, is_data_sent, Client, Outcome, unless_failed, note, issue,
  issue_dropped, rcpts, send_body, do_send, retry, send, mail, rcpt, reset, end_data, data_command,
}

-- The calls that give the relay the recipients, in their order, each accepted.
unfoldable pub with_rcpts : List String → Log → Log
with_rcpts [] log = log
with_rcpts (r ∷ rest) log = with_rcpts rest ((rcpt r, true) ∷ log)

-- One whole session, accepted at each step, and the reset whose answer `again` does not matter.
unfoldable pub delivery : String → List String → String → Bool → Log → Log
unfolding with_rcpts
delivery from to msg again before =
    (reset, again)
    ∷ (end_data, true)
    ∷ (write_body msg, true)
    ∷ (data_command, true)
    ∷ with_rcpts to ((mail from, true) ∷ before)

then_ok :
    (out : Outcome) (next : Client → Outcome) (middle : Client) (P : Client → Type 0)
    → (out.0 ≡ none → out.1 ≡ middle)
    → ((next middle).0 ≡ none → P (next middle).1)
    → (unless_failed out next).0 ≡ none
    → P (unless_failed out next).1
unfolding unless_failed
then_ok (some e, c) next middle P f g h = absurd (ground (arith, h))
then_ok (none, c) next middle P f g h =
    subst (λ c'. (next c').0 ≡ none → P (next c').1) (sym (f refl)) g h

-- The same where what follows is so from any state.
then_any :
    (out : Outcome) (next : Client → Outcome) (P : Client → Type 0)
    → ((c : Client) → (next c).0 ≡ none → P (next c).1)
    → (unless_failed out next).0 ≡ none
    → P (unless_failed out next).1
unfolding unless_failed
then_any (some e, c) next P g h = absurd (ground (arith, h))
then_any (none, c) next P g h = g c h

issued :
    (s : Relay) (op : Op) (e : SendError) (c : Client)
    → (issue s op e c).0 ≡ none
    → (issue s op e c).1 ≡ note op true c
unfolding issue
issued s op e c = elim (Bool-cases (s.refuses c.log op)) [
  | inl refused ↦ rw refused (λ h. absurd (ground (arith, h)))
  | inr accepted ↦ rw accepted (λ h. refl)
]

rcpts_issued :
    (s : Relay) (to : List String) (c : Client)
    → (rcpts s to c).0 ≡ none
    → (rcpts s to c).1 ≡ record c { log = with_rcpts to c.log }
unfolding rcpts with_rcpts note
rcpts_issued s [] c = λ h. refl
rcpts_issued s (r ∷ rest) c =
    then_ok _ (rcpts s rest) (note (rcpt r) true c)
      (λ c'. c' ≡ record c { log = with_rcpts (r ∷ rest) c.log }) (issued s (rcpt r) _ c)
      (rcpts_issued s rest (note (rcpt r) true c))

-- The log of the client ends with a whole delivery.
abbrev HasDelivered : List String → String → Client → Type 0
HasDelivered to msg c =
    (before : Log) × (again : Bool) × (c.log ≡ delivery c.from to msg again before)

send_body_issued :
    (s : Relay) (to : List String) (msg : String) (c : Client) (before : Log)
    → c.log ≡ (data_command, true) ∷ with_rcpts to ((mail c.from, true) ∷ before)
    → (send_body s msg c).0 ≡ none
    → HasDelivered to msg (send_body s msg c).1
unfolding send_body delivery note issue_dropped
send_body_issued s to msg c before e =
    let ended = note end_data true (note (write_body msg) true c) in
    let again = not (s.refuses ended.log reset) in
    elim (Bool-cases (s.refuses c.log (write_body msg))) [
      | inl refused ↦ rw refused (λ h. absurd (ground (arith, h)))
      | inr accepted ↦ rw accepted (
          then_ok _ _ ended (HasDelivered to msg)
            (issued s end_data _ (note (write_body msg) true c))
            (λ h. (
              before,
              again,
              ap (λ log. (reset, again) ∷ (end_data, true) ∷ (write_body msg, true) ∷ log) e,
            )))
    ]

do_send_issued :
    (s : Relay) (to : List String) (msg : String) (c : Client)
    → (do_send s to msg c).0 ≡ none
    → HasDelivered to msg (do_send s to msg c).1
unfolding do_send note
do_send_issued s to msg c =
    let c1 = note (mail c.from) true c in
    let c2 = record c1 { log = with_rcpts to c1.log } in
    then_ok _ _ c1 (HasDelivered to msg) (issued s (mail c.from) _ c) (
      then_ok _ _ c2 (HasDelivered to msg) (rcpts_issued s to c1) (
        then_ok _ _ (note data_command true c2) (HasDelivered to msg) (issued s data_command _ c2)
          (send_body_issued s to msg (note data_command true c2) c.log refl)))

retry_delivers :
    (s : Relay) (to : List String) (msg : String) (out : Outcome)
    → (out.0 ≡ none → HasDelivered to msg out.1)
    → (retry s to msg out).0 ≡ none
    → HasDelivered to msg (retry s to msg out).1
unfolding retry
retry_delivers s to msg (none, c) first = first
retry_delivers s to msg (some e, c) first = elim (Bool-cases (is_data_sent e)) [
  | inl sent ↦ rw sent (λ h. absurd (ground (arith, h)))
  | inr early ↦ rw early (then_any _ _ (HasDelivered to msg) (do_send_issued s to msg))
]

-- When Send returns no error, the last calls are one whole delivery that the relay accepted at each
-- step: the sender, every recipient in order, the body and its end; then a reset, answered or not.
pub send_delivers :
    (s : Relay) (to : List String) (msg : String) (c : Client)
    → (send s to msg c).0 ≡ none
    → let done = (send s to msg c).1 in
      (before : Log) × (again : Bool) × (done.log ≡ delivery done.from to msg again before)
unfolding send
send_delivers s to msg c =
    then_any _ _ (HasDelivered to msg)
      (λ ready. retry_delivers s to msg _ (do_send_issued s to msg ready))
