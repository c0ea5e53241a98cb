-- ===== src/Broker/Script.antt =====
-- Steps on the state of a broker that may fail, one after the other up to the first error.
use golang_gin.Errors.{Kind, Result, ok, err, wrap, Fault, check}
use golang_gin.Prelude.{String, some}

-- What a step does to the state `B`, with what it returns.
abbrev pub Script {ℓ κ} : Type ℓ → Type κ → Type (ℓ ⊔ κ)
Script B A = B → B × Result A

module _ {ℓ κ μ} {B : Type ℓ} {A : Type κ} {C : Type μ} where
  infixl 5 ◌>>=◌
  abbrev pub go_on : B × Result A → (A → Script B C) → B × Result C
  go_on (b, err e) next = (b, err e)
  go_on (b, ok a) next = next a b

  unfoldable pub ◌>>=◌ : Script B A → (A → Script B C) → Script B C
  (first >>= next) b = go_on (first b) next

module _ {ℓ κ} {B : Type ℓ} {C : Type κ} where
  infixl 5 ◌>>◌
  abbrev pub ◌>>◌ : Script B (Unit {0}) → Script B C → Script B C
  (first >> next) = first >>= λ _. next

-- A result that does not depend on the state.
unfoldable pub pure {ℓ κ} : {B : Type ℓ} {A : Type κ} → Result A → Script B A
pure r b = (b, r)

-- A result that the state decides.
unfoldable pub observe {ℓ κ} : {B : Type ℓ} {A : Type κ} → (B → Result A) → Script B A
observe look b = (b, look b)

-- A call of the AMQP library whose error is wrapped.
unfoldable pub attempt {ℓ} : {B : Type ℓ} → (B → B × Fault) → Kind → String → Script B (Unit {0})
attempt call kind text b = let (b', fault) = call b in (b', check fault kind text)

-- `if err != nil { return Wrap(kind, err, text) }` after a function of the program.
abbrev pub rewrap {ℓ} : {A : Type ℓ} → Kind → String → Result A → Result A
rewrap kind text (err e) = err (wrap kind (some e) text)
rewrap kind text (ok a) = ok a

unfoldable pub wrapping {ℓ κ} : {B : Type ℓ} {A : Type κ} → Kind → String → Script B A → Script B A
wrapping kind text script b = let (b', r) = script b in (b', rewrap kind text r)
