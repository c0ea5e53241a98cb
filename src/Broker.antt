-- ===== src/Broker.antt =====
-- pkg/rabbitmq/consumer.go: `Consume`. What the channel and the context report comes as a list of
-- events; the handler is a function of the state of its service.
pub mod Laws
pub mod Script
pub mod Amqp
pub mod Channels
use text.Mathlib.Text.{◌==◌ as str_eq}
use golang_gin.Prelude.{String, Bool, not, Option, none, some, List, [], ◌∷◌}
use golang_gin.Errors.{
  invalid_input, internal, new, Result, ok, err, ◌>>=◌, ◌>>◌, guard, Fault, check,
}

-- A delivery: its body, and how `Ack` and `Nack` of it go.
pub record Message {ℓ} (B : Type ℓ) : Type ℓ where
  pub body : B
  pub ack : Fault
  pub nack : Fault

-- What the `select` of the loop meets: the end of the context, the end of the channel, a delivery.
pub data Event {ℓ} (B : Type ℓ) : Type ℓ where
  cancelled closed : Event B
  delivered : Message B → Event B

-- `Ack`, or `Nack` with requeue.
pub data Settlement : Type 0 where
  acked requeued : Settlement

-- The loop waits for the next event, or it has returned.
pub data End : Type 0 where
  waiting : End
  returned : Result (Unit {0}) → End

-- What is settled, in order, the state of the service, and the end.
abbrev pub Run {ℓ κ} : Type ℓ → Type κ → Type (ℓ ⊔ κ)
Run S B = List (B × Settlement) × S × End

abbrev pub Handler {ℓ κ} : Type ℓ → Type κ → Type (ℓ ⊔ κ)
Handler S B = S → B → S × Fault

-- The end of one round, by what the handler returned.
unfoldable pub settle {κ} : {B : Type κ} → Message B → Fault → Result Settlement
settle m none = do check m.ack internal "failed to ack rabbitmq message"; ok acked
settle m (some e) = do check m.nack internal "failed to nack rabbitmq message"; ok requeued

module _ {ℓ κ} {S : Type ℓ} {B : Type κ} where
  abbrev pub go_on : B → S → Result Settlement → Run S B → Run S B
  go_on b s (err e) rest = ([], s, returned (err e))
  go_on b s (ok f) (settled, s', end) = ((b, f) ∷ settled, s', end)

  unfoldable pub loop : Handler S B → List (Event B) → S → Run S B
  unfolding settle
  loop handler [] s = ([], s, waiting)
  loop handler (cancelled ∷ es) s = ([], s, returned (ok tt))
  loop handler (closed ∷ es) s =
      ([], s, returned (err (new internal "rabbitmq consumer channel closed")))
  loop handler (delivered m ∷ es) s =
      let (s', fault) = handler s m.body in go_on m.body s' (settle m fault) (loop handler es s')

  -- The checks before the loop; a handler may be nil.
  unfoldable pub prepared :
      Bool → Option (Handler S B) → String → Fault → Fault → Result (Handler S B)
  prepared channel handler queue qos start = do
    guard channel internal "rabbitmq consumer is not initialized"
    h ← elim handler [ none ↦ err (new invalid_input "consumer handler is nil") | some h ↦ ok h ]
    guard (not (str_eq queue "")) invalid_input "queue name is empty"
    check qos internal "failed to configure rabbitmq qos"
    check start internal "failed to start rabbitmq consumer"
    ok h

  abbrev pub started : Result (Handler S B) → List (Event B) → S → Run S B
  started (err e) es s = ([], s, returned (err e))
  started (ok h) es s = loop h es s

  unfoldable pub consume :
      Bool → Option (Handler S B) → String → Fault → Fault → List (Event B) → S → Run S B
  unfolding prepared loop
  consume channel handler queue qos start es s =
      started (prepared channel handler queue qos start) es s
