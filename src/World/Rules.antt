-- ===== src/World/Rules.antt =====
-- Reasoning on computations: what keeps an invariant of the world, and what cannot fail.
pub mod Frame
use hexagonal_backend.Common.{◌≡◌, refl, Bool, true, false, Option, none, some}
use hexagonal_backend.Common.Result.{Result, ok, err, is_ok}
use hexagonal_backend.Env.{Env}
use hexagonal_backend.Errors.{Error}
use hexagonal_backend.World.{World}
use hexagonal_backend.World.Monad.{
  M, asks, attempt, best_effort, pure, raise, raise_if, ◌>>=◌, ◌>>◌, when◌then◌else◌,
}

-- A run from a world in I ends in a world in I, with an answer or with an error.
pub record Keeps {A : Type 0} (I : World → Type 0) (m : M A) : Type 0 where
  pub kept : (env : Env) (w : World) → I w → I (m env w).1

-- A run answers in every environment and world.
pub record Answers {A : Type 0} (m : M A) : Type 0 where
  pub answered : (env : Env) (w : World) → is_ok (m env w).0 ≡ true

module _ {A B : Type 0} where
  pub bind-Answers :
      (m : M A) (f : A → M B) → Answers m → ((a : A) → Answers (f a)) → Answers (m >>= f)
  bind-Answers m f p q = record { answered = λ env w. go env (m env w) (p.answered env w) }
    where
      go :
          (env : Env) (r : Result A × World)
          → is_ok r.0 ≡ true
          → is_ok
              (elim r.0 as (λ _. Result B × World) [ ok a ↦ f a env r.1 | err e ↦ (err e, r.1) ]).0
            ≡ true
      go env (ok a, v) h = (q a).answered env v
      go env (err x, v) h = h

  pub bind-Keeps :
      {I : World → Type 0} (m : M A) (f : A → M B)
      → Keeps I m
      → ((a : A) → Keeps I (f a))
      → Keeps I (m >>= f)
  bind-Keeps {I} m f p q = record { kept = λ env w i. go env (m env w) (p.kept env w i) }
    where
      go :
          (env : Env) (r : Result A × World)
          → I r.1
          → I (elim r.0 as (λ _. Result B × World) [ ok a ↦ f a env r.1 | err e ↦ (err e, r.1) ]).1
      go env (ok a, v) h = (q a).kept env v h
      go env (err x, v) h = h

module _ {A B : Type 0} where
  -- A branch on the answer of m.
  pub bind_result-Answers :
      (m : M (Result A)) (k : Result A → M B)
      → Answers m
      → ((a : A) → Answers (k (ok a)))
      → ((e : Error) → Answers (k (err e)))
      → Answers (m >>= k)
  bind_result-Answers m k p q r = bind-Answers m k p go
    where
      go : (r : Result A) → Answers (k r)
      go (ok a) = q a
      go (err e) = r e

  pub bind_result-Keeps :
      {I : World → Type 0} (m : M (Result A)) (k : Result A → M B)
      → Keeps I m
      → ((a : A) → Keeps I (k (ok a)))
      → ((e : Error) → Keeps I (k (err e)))
      → Keeps I (m >>= k)
  bind_result-Keeps {I} m k p q r = bind-Keeps m k p go
    where
      go : (r : Result A) → Keeps I (k r)
      go (ok a) = q a
      go (err e) = r e

  pub bind_option-Keeps :
      {I : World → Type 0} (m : M (Option A)) (k : Option A → M B)
      → Keeps I m
      → ((a : A) → Keeps I (k (some a)))
      → Keeps I (k none)
      → Keeps I (m >>= k)
  bind_option-Keeps {I} m k p q r = bind-Keeps m k p go
    where
      go : (r : Option A) → Keeps I (k r)
      go (some a) = q a
      go none = r

module _ {A : Type 0} where
  pub when-Answers : (b : Bool) (m k : M A) → Answers m → Answers k → Answers (when b then m else k)
  when-Answers true m k p q = p
  when-Answers false m k p q = q

  pub when-Keeps :
      {I : World → Type 0} (b : Bool) (m k : M A)
      → Keeps I m
      → Keeps I k
      → Keeps I (when b then m else k)
  when-Keeps true m k p q = p
  when-Keeps false m k p q = q

  pub attempt-Answers : (m : M A) → Answers (attempt m)
  attempt-Answers m = record { answered = λ _ _. refl }

  pub best_effort-Answers : (m : M A) → Answers (best_effort m)
  best_effort-Answers m = record { answered = λ _ _. refl }

  pub asks-Answers : (f : Env → A) → Answers (asks f)
  asks-Answers f = record { answered = λ _ _. refl }

  pub pure-Answers : (a : A) → Answers (pure a)
  pure-Answers a = record { answered = λ _ _. refl }

  pub pure-Keeps : {I : World → Type 0} (a : A) → Keeps I (pure a)
  pure-Keeps a = record { kept = λ _ _ i. i }

  pub raise-Keeps : {I : World → Type 0} (e : Error) → Keeps I (raise {A = A} e)
  raise-Keeps e = record { kept = λ _ _ i. i }

  pub asks-Keeps : {I : World → Type 0} (f : Env → A) → Keeps I (asks f)
  asks-Keeps f = record { kept = λ _ _ i. i }

  pub attempt-Keeps : {I : World → Type 0} (m : M A) → Keeps I m → Keeps I (attempt m)
  attempt-Keeps m p = record { kept = λ env w i. p.kept env w i }

  pub best_effort-Keeps : {I : World → Type 0} (m : M A) → Keeps I m → Keeps I (best_effort m)
  best_effort-Keeps m p = record { kept = λ env w i. p.kept env w i }

pub raise_if-Keeps : {I : World → Type 0} (b : Bool) (e : Error) → Keeps I (raise_if b e)
raise_if-Keeps b e = record { kept = λ _ _ i. i }

pub ruleset answers = (
  bind-Answers, bind_result-Answers, when-Answers, attempt-Answers, best_effort-Answers,
  asks-Answers, pure-Answers,
)

pub ruleset keeps = (
  bind-Keeps, bind_result-Keeps, bind_option-Keeps, when-Keeps, attempt-Keeps, best_effort-Keeps,
  asks-Keeps, pure-Keeps, raise-Keeps, raise_if-Keeps,
)
