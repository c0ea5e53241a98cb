-- ===== src/Broker/Laws.antt =====
-- Each delivery is settled by what the handler returns, and none holds up those after it.
use text.Mathlib.Text.{◌==◌ as str_eq}
use golang_gin.Prelude.{
  ◌≡◌, refl, String, true, false, none, some, List, [], ◌∷◌, ◌++◌, map, All, Option-cases, inl, inr,
}
use golang_gin.Errors.{Fault}
use golang_gin.Broker.{
  Message, Event, delivered, Settlement, acked, requeued, Handler, settle, loop, prepared, consume,
}

-- The fate of a message by what the handler returns.
abbrev pub fate : Fault → Settlement
fate none = acked
fate (some e) = requeued

-- `Ack` and `Nack` reach the broker.
abbrev pub IsConnected {κ} : {B : Type κ} → Message B → Type 0
IsConnected m = (m.ack ≡ none) × (m.nack ≡ none)

module _ {ℓ κ} {S : Type ℓ} {B : Type κ} (handler : Handler S B) where
  -- The state after messages, and their fates.
  abbrev pub after : List (Message B) → S → S
  after [] s = s
  after (m ∷ ms) s = after ms (handler s m.body).0

  abbrev pub fates : List (Message B) → S → List (B × Settlement)
  fates [] s = []
  fates (m ∷ ms) s = (m.body, fate (handler s m.body).1) ∷ fates ms (handler s m.body).0

  loop-delivered :
      (ms : List (Message B)) (es : List (Event B)) (s : S)
      → All IsConnected ms
      → loop handler (map delivered ms ++ es) s ≡ (
        fates ms s ++ (loop handler es (after ms s)).0,
        (loop handler es (after ms s)).1,
        (loop handler es (after ms s)).2,
      )
  unfolding loop settle
  loop-delivered [] es s all = refl
  loop-delivered (m ∷ ms) es s all =
      let rest = loop-delivered ms es (handler s m.body).0 all.1 in
      elim (Option-cases (handler s m.body).1) [
        | inl is ↦ rw (is, all.0.0, rest) refl
        | inr (e, is) ↦ rw (is, all.0.1, rest) refl
      ]

  -- Once set up, `Consume` settles every delivery that it gets, in their order, as long as
  -- acknowledgements reach the broker: it acknowledges those whose handler returns no error and puts
  -- the others back into the queue, each handler runs on the state that those before it left, and
  -- then `Consume` goes on with whatever comes next.
  pub consume-fates :
      (queue : String)
      → str_eq queue "" ≡ false
      → (ms : List (Message B)) (es : List (Event B)) (s : S) → All IsConnected ms
      → let rest = loop handler es (after ms s) in
        consume true (some handler) queue none none (map delivered ms ++ es) s
        ≡ (fates ms s ++ rest.0, rest.1, rest.2)
  unfolding consume prepared
  consume-fates queue full ms es s all = rw full (loop-delivered ms es s all)
