-- ===== src/Broker/Amqp.antt =====
-- github.com/rabbitmq/amqp091-go and the RabbitMQ server behind it, as the services use them: an
-- interface, and what AMQP 0-9-1 promises of it.
use text.Mathlib.Text.{◌==◌ as str_eq}
use Prim.Native.Char.{code}
use Prim.Native.String.{[] as no_text, ◌∷◌ as ◌then◌}
use golang_gin.Prelude.{
  ◌≡◌, ◌⊎◌, String, Bool, true, false, ◌||◌, none, some, List, [], ◌∷◌, ◌++◌, ◌==◌,
}
use golang_gin.Errors.{GoError, Fault}

-- How a publication in confirm mode ends: it is not sent, it is confirmed or refused, or no
-- confirmation comes.
pub data Confirmation : Type 0 where
  unsent : GoError → Confirmation
  acked nacked silent : Confirmation

-- A queue, the routing key that it is bound with, and the exchange.
abbrev pub Binding : Type 0
Binding = String × String × String

-- The calls, on the state of the server and the connection, and what can be seen of that state: the
-- exchanges, the bindings, and what has been put into a queue so far, with its routing key. The
-- exchanges are durable topic exchanges and the queues are durable.
pub record Amqp {ℓ} (B : Type ℓ) : Type ℓ where
  pub is_closed : B → Bool
  pub open_channel : B → B × Fault
  pub confirm : B → B × Fault
  pub exchange_declare : String → B → B × Fault
  pub queue_declare : String → B → B × Fault
  pub queue_bind : Binding → B → B × Fault
  pub publish : String → String → String → B → B × Confirmation
  pub matches : String → String → Bool
  pub has_exchange : B → String → Bool
  pub is_bound : B → Binding → Bool
  pub arrived : B → String → List (String × String)

-- The characters `*` and `#`, which stand for words in the key of a binding.
abbrev pub has_wildcard : String → Bool
has_wildcard no_text = false
has_wildcard (c then rest) = (code c == 42) || ((code c == 35) || has_wildcard rest)

module _ {ℓ} {B : Type ℓ} (amqp : Amqp B) where
  -- Exchanges, bindings and queues are as before.
  pub record Same (b b' : B) : Type ℓ where
    pub exchanges : (x : String) → amqp.has_exchange b' x ≡ amqp.has_exchange b x
    pub bindings : (x : Binding) → amqp.is_bound b' x ≡ amqp.is_bound b x
    pub queues : (q : String) → amqp.arrived b' q ≡ amqp.arrived b q

  -- A publication to an exchange can reach a queue only by a binding whose key matches.
  pub record IsRouted (exchange key : String) (b : B) (q : String) : Type ℓ where
    pub pattern_key : String
    pub by_binding : amqp.is_bound b (q, pattern_key, exchange) ≡ true
    pub by_key : amqp.matches pattern_key key ≡ true

  -- What a publication does to a queue: nothing, or it puts the message into it.
  abbrev pub Arrives : String → String → String → B → B → String → Type ℓ
  Arrives exchange key body b b' q =
      IsRouted exchange key b q × (amqp.arrived b' q ≡ amqp.arrived b q ++ ((key, body) ∷ []))

  -- What AMQP promises: a channel and its confirm mode change nothing that is seen; a declaration adds
  -- the one exchange, a binding the one binding, and what was there stays; a queue can be bound only to
  -- an exchange that exists; a message goes to the queues with a binding that matches, to all of them
  -- when it is confirmed; a key without wildcards matches itself only.
  pub record IsAmqp : Type ℓ where
    pub open_same : (b : B) → Same b (amqp.open_channel b).0
    pub confirm_same : (b : B) → Same b (amqp.confirm b).0
    pub queue_same : (q : String) (b : B) → Same b (amqp.queue_declare q b).0
    pub declare_adds :
        (e : String) (b : B) (x : String)
        → amqp.has_exchange (amqp.exchange_declare e b).0 x ≡ true
        → (amqp.has_exchange b x ≡ true) ⊎ (x ≡ e)
    pub declare_bindings :
        (e : String) (b : B) (x : Binding)
        → amqp.is_bound (amqp.exchange_declare e b).0 x ≡ amqp.is_bound b x
    pub declare_queues :
        (e : String) (b : B) (q : String)
        → amqp.arrived (amqp.exchange_declare e b).0 q ≡ amqp.arrived b q
    pub bind_exchanges :
        (x : Binding) (b : B) (y : String)
        → amqp.has_exchange (amqp.queue_bind x b).0 y ≡ amqp.has_exchange b y
    pub bind_adds :
        (x : Binding) (b : B) (y : Binding)
        → amqp.is_bound (amqp.queue_bind x b).0 y ≡ true
        → (amqp.is_bound b y ≡ true) ⊎ ((y ≡ x) × (amqp.has_exchange b x.2 ≡ true))
    pub bind_keeps :
        (x : Binding) (b : B) (y : Binding)
        → amqp.is_bound b y ≡ true
        → amqp.is_bound (amqp.queue_bind x b).0 y ≡ true
    pub bind_binds :
        (x : Binding) (b : B)
        → (amqp.queue_bind x b).1 ≡ none
        → amqp.is_bound (amqp.queue_bind x b).0 x ≡ true
    pub bind_queues :
        (x : Binding) (b : B) (q : String)
        → amqp.arrived (amqp.queue_bind x b).0 q ≡ amqp.arrived b q
    pub bind_missing :
        (x : Binding) (b : B)
        → amqp.has_exchange b x.2 ≡ false
        → (e : GoError) × ((amqp.queue_bind x b).1 ≡ some e)
    pub publish_exchanges :
        (exchange key body : String) (b : B) (x : String)
        → amqp.has_exchange (amqp.publish exchange key body b).0 x ≡ amqp.has_exchange b x
    pub publish_bindings :
        (exchange key body : String) (b : B) (x : Binding)
        → amqp.is_bound (amqp.publish exchange key body b).0 x ≡ amqp.is_bound b x
    pub publish_puts :
        (exchange key body : String) (b : B) (q : String)
        → (amqp.arrived (amqp.publish exchange key body b).0 q ≡ amqp.arrived b q)
          ⊎ Arrives exchange key body b (amqp.publish exchange key body b).0 q
    pub publish_reaches :
        (exchange key body : String) (b : B) (q : String)
        → (amqp.publish exchange key body b).1 ≡ acked
        → IsRouted exchange key b q
        → amqp.arrived (amqp.publish exchange key body b).0 q
          ≡ amqp.arrived b q ++ ((key, body) ∷ [])
    pub matches_plain :
        (pattern_key key : String)
        → has_wildcard pattern_key ≡ false
        → amqp.matches pattern_key key ≡ str_eq pattern_key key
