-- ===== src/World/Monad.antt =====
-- A use case as a state and error computation. What was written stays written after an error.
use hexagonal_backend.Common.{◌+◌, String, Bool, true, false, some, none, if◌then◌else◌}
use hexagonal_backend.Common.Time.{Time}
use hexagonal_backend.Common.Result.{Result, ok, err}
use hexagonal_backend.Env.{Env}
use hexagonal_backend.Errors.{Error, backend, panic}
use hexagonal_backend.World.{World}

abbrev pub M : Type 0 → Type 0
M A = Env → World → Result A × World

module _ {A : Type 0} where
  abbrev pub pure : A → M A
  pure a env w = (ok a, w)

  abbrev pub raise : Error → M A
  raise e env w = (err e, w)

  abbrev pub lift : Result A → M A
  lift r env w = (r, w)

  abbrev pub asks : (Env → A) → M A
  asks f env w = (ok (f env), w)

  abbrev pub gets : (World → A) → M A
  gets f env w = (ok (f w), w)

  -- The error as a value, for the callers that look at it.
  abbrev pub attempt : M A → M (Result A)
  attempt m env w = let (r, w') = m env w in (ok r, w')

  -- The error is logged and dropped.
  abbrev pub best_effort : M A → M (Unit {0})
  best_effort m env w = let (r, w') = m env w in (ok tt, w')

module _ {A B : Type 0} where
  infixl 5 ◌>>=◌
  -- What follows is run on the answer, from the world that the first part has left.
  abbrev pub ◌>>=◌ : M A → (A → M B) → M B
  first >>= next = λ env w.
      let (r, left) = first env w in
      elim r [ ok answer ↦ next answer env left | err e ↦ (err e, left) ]

module _ {B : Type 0} where
  infixl 5 ◌>>◌
  abbrev pub ◌>>◌ : M (Unit {0}) → M B → M B
  first >> next = first >>= λ _. next

abbrev pub modify : (World → World) → M (Unit {0})
modify f env w = (ok tt, f w)

-- `if bad { return nil, err }`
abbrev pub raise_if : Bool → Error → M (Unit {0})
raise_if bad e env w = (if bad then err e else ok tt, w)

-- A branch between two computations; it computes once it is run.
infix 1 when◌then◌else◌
abbrev pub when◌then◌else◌ : {A : Type 0} → Bool → M A → M A → M A
when◌then◌else◌ b m k env w = elim b [ true ↦ m env w | false ↦ k env w ]

-- time.Now()
abbrev pub now : M Time
now env w = (ok (env.time w.ticks), record w { ticks = w.ticks + 1 })

-- uuid.NewString()
abbrev pub new_uuid : M String
new_uuid env w = (ok (env.uuid w.draws), record w { draws = w.draws + 1 })

-- random.Token(), of core/random
abbrev pub random_token : M String
random_token env w = (
  elim (env.token w.draws) [ some t ↦ ok t | none ↦ err backend ],
  record w { draws = w.draws + 1 },
)

-- hashPassword: a refused password panics.
abbrev pub hash_password : String → M String
hash_password password env w = (
  elim (env.bcrypt_generate w.draws 12 password) [ some h ↦ ok h | none ↦ err panic ],
  record w { draws = w.draws + 1 },
)

-- A call of a store: it may fail, and then does nothing.
abbrev pub store_call : M (Unit {0})
store_call env w =
    (if env.fault w.calls then err backend else ok tt, record w { calls = w.calls + 1 })
