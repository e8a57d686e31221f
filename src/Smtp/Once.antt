-- ===== src/Smtp/Once.antt =====
-- What client.go's Send has transmitted when it returns: the body at most once, and on success the
-- whole of one envelope.
use hexagonal_backend.Common.{
  ℕ, ◌+◌, ◌≡◌, refl, Bool, true, false, Option, none, some, List, [], ◌∷◌, String, if◌then◌else◌,
  if_elim, arith, Bool-cases, inl, inr,
}
use mathlib.Core.Path.{subst}
use hexagonal_backend.Smtp.{
  Op, write_body, Log, Relay, SendError, is_data_sent, Client, Outcome, unless_failed, note, issue,
  issue_dropped, rcpts, send_body, do_send, upgrade, dial, close_conn, retry, send, mail, rcpt,
  end_data, data_command, dial_tcp, new_client, start_tls,
}

-- How often a body was written, in whole or in part.
abbrev is_body : Op → Bool
is_body (write_body msg) = true
is_body op = false

unfoldable pub bodies : Log → ℕ
bodies [] = 0
bodies ((op, answered) ∷ rest) = let n = bodies rest in if is_body op then n + 1 else n

-- What an answer of Send says of the body: it was written, or it was not.
unfoldable pub transmitted : Option SendError → ℕ
unfolding is_data_sent
transmitted none = 1
transmitted (some e) = if is_data_sent e then 1 else 0

-- No body was written, and the error, if there is one, says so.
abbrev Quiet : ℕ → Outcome → Type 0
Quiet n (none, c) = bodies c.log ≡ n
Quiet n (some e, c) = (bodies c.log ≡ n) × (is_data_sent e ≡ false)

abbrev Counted : ℕ → Outcome → Type 0
Counted n out = bodies out.1.log ≡ n + transmitted out.0

unless_failed-Counted :
    (n : ℕ) (out : Outcome) (next : Client → Outcome)
    → Quiet n out
    → ((c : Client) → Counted (bodies c.log) (next c))
    → Counted n (unless_failed out next)
unfolding unless_failed transmitted
unless_failed-Counted n (none, c) next q h = ground (arith, q, h c)
unless_failed-Counted n (some e, c) next q h = ground (arith, q.0, q.1)

unless_failed-Quiet :
    (n : ℕ) (out : Outcome) (next : Client → Outcome)
    → Quiet n out
    → ((c : Client) → Quiet (bodies c.log) (next c))
    → Quiet n (unless_failed out next)
unfolding unless_failed
unless_failed-Quiet n (some e, c) next q h = q
unless_failed-Quiet n (none, c) next q h = subst (λ m. Quiet m (next c)) q (h c)

issue-Quiet :
    (s : Relay) (op : Op) (e : SendError) (c : Client)
    → is_body op ≡ false
    → is_data_sent e ≡ false
    → Quiet (bodies c.log) (issue s op e c)
unfolding issue note bodies
issue-Quiet s op e c none_here early = elim (Bool-cases (s.refuses c.log op)) [
  | inl refused ↦ rw (refused, none_here) (refl, early)
  | inr accepted ↦ rw (accepted, none_here) refl
]

rcpts-Quiet : (s : Relay) (to : List String) (c : Client) → Quiet (bodies c.log) (rcpts s to c)
unfolding rcpts is_data_sent
rcpts-Quiet s [] c = refl
rcpts-Quiet s (r ∷ rest) c =
    unless_failed-Quiet _ _ (rcpts s rest) (issue-Quiet s (rcpt r) _ c refl refl)
      (rcpts-Quiet s rest)

upgrade-Quiet : (s : Relay) (c : Client) → Quiet (bodies c.log) (upgrade s c)
unfolding upgrade issue_dropped note bodies is_data_sent
upgrade-Quiet s c = elim (Bool-cases (s.offers_tls c.log)) [
  | inr e ↦ rw e refl
  | inl e ↦ elim (Bool-cases (s.refuses c.log start_tls)) [
    | inl refused ↦ rw (e, refused) (refl, refl)
    | inr accepted ↦ rw (e, accepted) refl
  ]
]

dial-Quiet : (s : Relay) (c : Client) → Quiet (bodies c.log) (dial s c)
unfolding dial issue_dropped note bodies is_data_sent
dial-Quiet s c = unless_failed-Quiet _ _ _ (issue-Quiet s dial_tcp _ c refl refl) (λ raw.
    elim (Bool-cases (s.refuses raw.log new_client)) [
      | inl refused ↦ rw refused (refl, refl)
      | inr accepted ↦ rw accepted (upgrade-Quiet s (note new_client true raw))
    ])

send_body-Counted :
    (s : Relay) (msg : String) (c : Client) → Counted (bodies c.log) (send_body s msg c)
unfolding send_body issue issue_dropped note bodies transmitted unless_failed is_data_sent
send_body-Counted s msg c = elim (Bool-cases (s.refuses c.log (write_body msg))) [
  | inl refused ↦ rw refused (omega arith)
  | inr accepted ↦ elim (Bool-cases (s.refuses ((write_body msg, true) ∷ c.log) end_data)) [
    | inl refused ↦ rw (accepted, refused) (omega arith)
    | inr ended ↦ rw (accepted, ended) (omega arith)
  ]
]

do_send-Counted :
    (s : Relay) (to : List String) (msg : String) (c : Client)
    → Counted (bodies c.log) (do_send s to msg c)
unfolding do_send is_data_sent
do_send-Counted s to msg c =
    unless_failed-Counted _ _ _ (issue-Quiet s (mail c.from) _ c refl refl) (λ c1.
      unless_failed-Counted _ _ _ (rcpts-Quiet s to c1) (λ c2.
        unless_failed-Counted _ _ _ (issue-Quiet s data_command _ c2 refl refl)
          (send_body-Counted s msg)))

close_conn-bodies : (s : Relay) (c : Client) → bodies (close_conn s c).log ≡ bodies c.log
unfolding close_conn issue_dropped note bodies
close_conn-bodies s c = elim (Bool-cases c.connected) [ inl e ↦ rw e refl | inr e ↦ rw e refl ]

-- The first try that failed early left no body behind, and the second one is counted.
retry-Counted :
    (s : Relay) (to : List String) (msg : String) (n : ℕ) (out : Outcome)
    → Counted n out
    → Counted n (retry s to msg out)
unfolding retry transmitted
retry-Counted s to msg n (none, c) h = h
retry-Counted s to msg n (some e, c) h = elim (Bool-cases (is_data_sent e)) [
  | inl sent ↦ rw sent (ground (arith, h, sent, close_conn-bodies s c))
  | inr early ↦ rw early (
      unless_failed-Counted n _ _
        (subst (λ m. Quiet m (dial s (close_conn s c)))
          (ground (arith, h, early, close_conn-bodies s c)) (dial-Quiet s (close_conn s c)))
        (do_send-Counted s to msg))
]

connect-Quiet :
    (s : Relay) (c : Client) → Quiet (bodies c.log) (if c.connected then (none, c) else dial s c)
connect-Quiet s c =
    if_elim c.connected {x = (none, c)} {y = dial s c} (Quiet (bodies c.log)) refl (dial-Quiet s c)

-- Send: whatever the relay answers, the body has been written once if Send returns no error or one
-- that says that it was, and otherwise never; a second try never writes it again.
pub send_once :
    (s : Relay) (to : List String) (msg : String) (c : Client)
    → let (answer, c') = send s to msg c in bodies c'.log ≡ bodies c.log + transmitted answer
unfolding send
send_once s to msg c =
    unless_failed-Counted _ _ _ (connect-Quiet s c)
      (λ ready. retry-Counted s to msg _ _ (do_send-Counted s to msg ready))
