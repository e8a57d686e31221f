-- ===== src/Config/Clients.antt =====
-- What config.go's parseClientConfigs returns.
use Prim.Native.String.{◌++◌}
use mathlib.Core.Path.{subst}
use hexagonal_backend.Common.{
  ℕ, zero, suc, ◌+◌, ◌<◌, ◌≡◌, refl, String, true, false, some, List, [], ◌∷◌, arith,
}
use hexagonal_backend.Common.Result.{ok}
use hexagonal_backend.Common.Text.{is_empty}
use hexagonal_backend.Config.{
  Variables, ClientConfig, parse_client_config_fields, parse_primary_client_config, client_prefix,
  more_clients, with_primary, parse_client_configs,
}

-- The id of the n-th client.
abbrev pub numbered_id : Variables → ℕ → String
numbered_id getenv n = getenv (client_prefix n ++ "ID")

-- The k clients from the n-th on.
unfoldable pub numbered_clients : Variables → ℕ → ℕ → List ClientConfig
numbered_clients getenv n zero = []
numbered_clients getenv n (suc k) =
    parse_client_config_fields getenv (client_prefix n) (numbered_id getenv n)
    ∷ numbered_clients getenv (n + 1) k

more_clients-numbered_clients :
    (getenv : Variables) (n k fuel : ℕ)
    → k < fuel
    → is_empty (numbered_id getenv (n + k)) ≡ true
    → ((j : ℕ) → j < k → is_empty (numbered_id getenv (n + j)) ≡ false)
    → more_clients fuel n getenv ≡ some (numbered_clients getenv n k)
unfolding more_clients numbered_clients
more_clients-numbered_clients getenv n k zero enough gap set = absurd (omega (arith, enough))
more_clients-numbered_clients getenv n zero (suc fuel) enough gap set =
    let here : is_empty (numbered_id getenv n) ≡ true =
      subst (λ m. is_empty (numbered_id getenv m) ≡ true) (omega arith) gap in
    rw here refl
more_clients-numbered_clients getenv n (suc k) (suc fuel) enough gap set =
    let here : is_empty (numbered_id getenv n) ≡ false =
      subst (λ m. is_empty (numbered_id getenv m) ≡ false) (omega arith) (set 0 (omega arith)) in
    let rest : more_clients fuel (n + 1) getenv ≡ some (numbered_clients getenv (n + 1) k) =
      more_clients-numbered_clients getenv (n + 1) k fuel (omega (arith, enough))
        (subst (λ m. is_empty (numbered_id getenv m) ≡ true) (omega arith) gap)
        (λ j h.
          subst (λ m. is_empty (numbered_id getenv m) ≡ false) (omega arith)
            (set (j + 1) (omega (arith, h)))) in
    rw (here, rest) refl

-- Where the primary client is configured, and the id of the client 2 + k is the first of the
-- numbered ones that is not set, the loop ends there and the clients are the primary one and the k
-- numbered ones before the gap, in order; any fuel above k is enough.
pub parse_client_configs_lem :
    (getenv : Variables) (primary : ClientConfig) (k fuel : ℕ)
    → parse_primary_client_config getenv ≡ ok primary
    → is_empty (numbered_id getenv (2 + k)) ≡ true
    → ((j : ℕ) → j < k → is_empty (numbered_id getenv (2 + j)) ≡ false)
    → k < fuel
    → parse_client_configs fuel getenv ≡ some (ok (primary ∷ numbered_clients getenv 2 k))
unfolding parse_client_configs with_primary
parse_client_configs_lem getenv primary k fuel configured gap set enough =
    rw (configured, more_clients-numbered_clients getenv 2 k fuel enough gap set) refl
