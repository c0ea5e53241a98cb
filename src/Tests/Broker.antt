-- ===== src/Tests/Broker.antt =====
-- The theorem on deliveries, with a handler that fails once.
use golang_gin.Prelude.{ℕ, zero, suc, true, ◌≡◌, refl, none, some, List, [], ◌∷◌, ◌++◌, map}
use golang_gin.Errors.{foreign}
use golang_gin.Broker.{Message, delivered, closed, Handler, loop, consume}
use golang_gin.Broker.Laws.{after, fates, consume-fates}

-- The handler counts its calls and fails at the first.
abbrev second_try : Handler ℕ ℕ
second_try zero b = (1, some (foreign "timeout"))
second_try (suc n) b = (suc (suc n), none)

abbrev message : ℕ → Message ℕ
message b = record { body = b; ack = none; nack = none }

abbrev messages : List (Message ℕ)
messages = message 7 ∷ message 8 ∷ message 7 ∷ []

consume-fates_example :
    consume true (some second_try) "stock" none none (map delivered messages ++ (closed ∷ [])) 0 ≡ (
      fates second_try messages 0
          ++ (loop second_try (closed ∷ []) (after second_try messages 0)).0,
      (loop second_try (closed ∷ []) (after second_try messages 0)).1,
      (loop second_try (closed ∷ []) (after second_try messages 0)).2,
    )
consume-fates_example =
    consume-fates second_try "stock" refl messages (closed ∷ []) 0
      ((refl, refl), ((refl, refl), ((refl, refl), tt)))
