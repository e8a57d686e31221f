-- ===== src/Smtp/Reconnect.antt =====
-- How client.go's Send recovers from a connection that has died.
use hexagonal_backend.Common.{
  ℕ, ◌+◌, ◌<◌, ◌≡◌, refl, sym, Bool, true, false, none, some, List, [], ◌∷◌, String, Bool-cases,
  inl, inr, if_elim, if◌then◌else◌, arith,
}
use mathlib.Core.Path.{subst}
use hexagonal_backend.Smtp.{
  Op, close_client, write_body, Log, Relay, SendError, is_data_sent, Client, Outcome, unless_failed,
  note, issue, issue_dropped, rcpts, send_body, do_send, upgrade, dial, close_conn, retry, send,
  rcpt_failed, mail_failed, data_failed, end_failed, reset, mail, rcpt, end_data, data_command,
  dial_tcp, new_client, start_tls,
}

-- How often the client has closed a connection.
abbrev is_close : Op → Bool
is_close close_client = true
is_close op = false

unfoldable pub closes : Log → ℕ
closes [] = 0
closes ((op, answered) ∷ rest) = let n = closes rest in if is_close op then n + 1 else n

note-closes :
    (n : ℕ) (op : Op) (answered : Bool) (c : Client)
    → n < closes c.log
    → n < closes (note op answered c).log
unfolding note closes
note-closes n op answered c h =
    if_elim (is_close op) {x = closes c.log + 1} {y = closes c.log} (λ m. n < m) (omega arith) h

-- Whether there is a connection is still what `b` says.
unfoldable Keeps : Bool → Outcome → Type 0
Keeps b out = out.1.connected ≡ b

unless_failed-Keeps :
    (b : Bool) (out : Outcome) (next : Client → Outcome)
    → Keeps b out
    → ((c : Client) → c.connected ≡ b → Keeps b (next c))
    → Keeps b (unless_failed out next)
unfolding unless_failed Keeps
unless_failed-Keeps b (some e, c) next h g = h
unless_failed-Keeps b (none, c) next h g = g c h

issue-Keeps :
    (s : Relay) (op : Op) (e : SendError) (b : Bool) (c : Client)
    → c.connected ≡ b
    → Keeps b (issue s op e c)
unfolding issue note Keeps
issue-Keeps s op e b c h =
    if_elim {A = Outcome} (s.refuses c.log op) {x = (some e, note op false c)}
      {y = (none, note op true c)} (λ out. out.1.connected ≡ b) h h

rcpts-Keeps :
    (s : Relay) (to : List String) (b : Bool) (c : Client)
    → c.connected ≡ b
    → Keeps b (rcpts s to c)
unfolding rcpts Keeps
rcpts-Keeps s [] b c h = h
rcpts-Keeps s (r ∷ rest) b c h =
    unless_failed-Keeps b _ (rcpts s rest) (issue-Keeps s (rcpt r) (rcpt_failed r) b c h)
      (rcpts-Keeps s rest b)

send_body-Keeps :
    (s : Relay) (msg : String) (b : Bool) (c : Client)
    → c.connected ≡ b
    → Keeps b (send_body s msg c)
unfolding send_body issue_dropped note Keeps
send_body-Keeps s msg b c h = elim (Bool-cases (s.refuses c.log (write_body msg))) [
  | inl refused ↦ rw refused h
  | inr accepted ↦ rw accepted (
      unless_failed-Keeps b _ (λ done. (none, issue_dropped s reset done))
        (issue-Keeps s end_data end_failed b (note (write_body msg) true c) h) (λ c' k. k))
]

do_send-Keeps :
    (s : Relay) (to : List String) (msg : String) (b : Bool) (c : Client)
    → c.connected ≡ b
    → Keeps b (do_send s to msg c)
unfolding do_send
do_send-Keeps s to msg b c h =
    unless_failed-Keeps b _ _ (issue-Keeps s (mail c.from) mail_failed b c h) (λ c1 h1.
      unless_failed-Keeps b _ _ (rcpts-Keeps s to b c1 h1) (λ c2 h2.
        unless_failed-Keeps b _ _ (issue-Keeps s data_command data_failed b c2 h2)
          (send_body-Keeps s msg b)))

close_conn-closes :
    (s : Relay) (c : Client) → c.connected ≡ true → closes c.log < closes (close_conn s c).log
unfolding close_conn issue_dropped note closes
close_conn-closes s c h = rw h (omega arith)

-- A relay that refuses nothing once the client has closed its connection for the n-th time.
module _ (s : Relay) (n : ℕ)
    (answers : (log : Log) (op : Op) → n < closes log → s.refuses log op ≡ false) where
  unfoldable Works : Outcome → Type 0
  Works out = (out.0 ≡ none) × (n < closes out.1.log)

  unless_failed-Works :
      (out : Outcome) (next : Client → Outcome)
      → Works out
      → ((c : Client) → n < closes c.log → Works (next c))
      → Works (unless_failed out next)
  unfolding unless_failed Works
  unless_failed-Works (none, c) next h g = g c h.1
  unless_failed-Works (some e, c) next h g = absurd (ground (arith, h.0))

  issue-Works : (op : Op) (e : SendError) (c : Client) → n < closes c.log → Works (issue s op e c)
  unfolding issue Works
  issue-Works op e c h = rw (answers c.log op h) (refl, note-closes n op true c h)

  rcpts-Works : (to : List String) (c : Client) → n < closes c.log → Works (rcpts s to c)
  unfolding rcpts Works
  rcpts-Works [] c h = (refl, h)
  rcpts-Works (r ∷ rest) c h =
      unless_failed-Works _ (rcpts s rest) (issue-Works (rcpt r) _ c h) (rcpts-Works rest)

  send_body-Works : (msg : String) (c : Client) → n < closes c.log → Works (send_body s msg c)
  unfolding send_body issue_dropped Works
  send_body-Works msg c h = rw (answers c.log (write_body msg) h) (
      unless_failed-Works _ _
        (issue-Works end_data _ (note (write_body msg) true c) (note-closes n _ true c h))
        (λ c' h'. (refl, note-closes n _ _ c' h')))

  do_send-Works :
      (to : List String) (msg : String) (c : Client) → n < closes c.log → Works (do_send s to msg c)
  unfolding do_send
  do_send-Works to msg c h = unless_failed-Works _ _ (issue-Works (mail c.from) _ c h) (λ c1 h1.
      unless_failed-Works _ _ (rcpts-Works to c1 h1)
        (λ c2 h2. unless_failed-Works _ _ (issue-Works data_command _ c2 h2) (send_body-Works msg)))

  upgrade-Works : (c : Client) → n < closes c.log → Works (upgrade s c)
  unfolding upgrade Works
  upgrade-Works c h = rw (answers c.log start_tls h) (elim (Bool-cases (s.offers_tls c.log)) [
    | inl offered ↦ rw offered (refl, note-closes n start_tls true c h)
    | inr not_offered ↦ rw not_offered (refl, h)
  ])

  dial-Works : (c : Client) → n < closes c.log → Works (dial s c)
  unfolding dial
  dial-Works c h = unless_failed-Works _ _ (issue-Works dial_tcp _ c h) (λ raw h1.
      rw (answers raw.log new_client h1)
        (upgrade-Works (note new_client true raw) (note-closes n new_client true raw h1)))

-- Send on a connection that has died, where the first try fails before any of the body is written
-- and the relay refuses nothing after the client has closed that connection: it redials, and the
-- second try succeeds.
pub send_reconnects :
    (s : Relay) (to : List String) (msg : String) (c : Client) (e : SendError)
    → c.connected ≡ true
    → (do_send s to msg c).0 ≡ some e
    → is_data_sent e ≡ false
    → ((log : Log) (op : Op)
        → closes (do_send s to msg c).1.log < closes log
        → s.refuses log op ≡ false)
    → (send s to msg c).0 ≡ none
unfolding send retry unless_failed Keeps Works
send_reconnects s to msg c e up failed early answers =
    subst (λ out. (unless_failed out (λ ready. retry s to msg (do_send s to msg ready))).0 ≡ none)
      (sym (kept c.connected up))
      (retried (do_send s to msg c) failed (do_send-Keeps s to msg true c up) answers)
  where
    kept : (b : Bool) → b ≡ true → (if b then (none, c) else dial s c) ≡ (none, c)
    kept true h = refl
    kept false h = absurd (ground (arith, h))

    retried :
        (out : Outcome)
        → out.0 ≡ some e
        → Keeps true out
        → ((log : Log) (op : Op) → closes out.1.log < closes log → s.refuses log op ≡ false)
        → (retry s to msg out).0 ≡ none
    retried (none, c1) h k works = absurd (ground (arith, h))
    retried (some e1, c1) h k works =
        let early1 : is_data_sent e1 ≡ false = ground (arith, h, early) in
        let closed = close_conn s c1 in
        rw early1
          (unless_failed-Works s (closes c1.log) works (dial s closed) (do_send s to msg)
            (dial-Works s (closes c1.log) works closed (close_conn-closes s c1 k))
            (do_send-Works s (closes c1.log) works to msg)).0
