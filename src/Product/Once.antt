-- ===== src/Product/Once.antt =====
-- The stock changes exactly once for each event that the stock consumers acknowledge.
use golang_gin.Prelude.{
  ℕ, ◌≡◌, refl, sym, false, List, [], ◌∷◌, ◌==◌, Bool-cases, ==_iff, inl, inr, arith, All, All-map,
  Any, ◌⊎◌,
}
use mathlib.Core.Path.{subst}
use golang_gin.Errors.{Result, ok, err, Fault}
use golang_gin.Product.{Table}
use golang_gin.Product.Consumer.{Store, StockEvent, is_processed, Surroundings, World}
use golang_gin.Product.Delivery.{
  Queue, handle, Delivery, deliver, record_of, Applied, start, once, Recorded, handle-Applied,
  handle-Recorded, handle-acknowledged, handle_undecoded, acknowledge, acknowledged, calm,
  Progresses, handle-Progresses,
}

body-Recorded :
    (queue : Queue) (env : Surroundings) (body : Result StockEvent) (w : World) (id : ℕ)
    → Recorded w.store id
    → Recorded (handle queue env body w).0.store id
body-Recorded queue env (err x) w id h = rw handle_undecoded h
body-Recorded queue env (ok e) w id h = handle-Recorded queue env e w id h

body-Applied :
    (P : Queue × StockEvent → Type 0) (queue : Queue) (env : Surroundings)
    (body : Result StockEvent)
    → ((e : StockEvent) → body ≡ ok e → P (queue, e))
    → (s0 : Store) (log : List (Queue × StockEvent)) (w : World) → Applied s0 log w.store
    → All P log
    → (log' : List (Queue × StockEvent)) × Applied s0 log' (handle queue env body w).0.store
      × All P log'
body-Applied P queue env (err x) this s0 log w h all = (log, rw handle_undecoded h, all)
body-Applied P queue env (ok e) this s0 log w h all =
    handle-Applied P queue env e (this e refl) s0 log w h all

deliver-Recorded :
    (ds : List Delivery) (w : World) (id : ℕ)
    → Recorded w.store id
    → Recorded (deliver ds w).store id
deliver-Recorded [] w id h = h
deliver-Recorded (d ∷ ds) w id h =
    deliver-Recorded ds (handle d.queue d.env d.body w).0 id
      (body-Recorded d.queue d.env d.body w id h)

-- The event came on the queue in one of the deliveries.
abbrev pub IsDelivered : List Delivery → Queue × StockEvent → Type 0
IsDelivered ds (queue, e) = Any (λ d. (d.queue ≡ queue) × (d.body ≡ ok e)) ds

deliver-Applied :
    (P : Queue × StockEvent → Type 0) (ds : List Delivery)
    → ((x : Queue × StockEvent) → IsDelivered ds x → P x)
    → (s0 : Store) (log : List (Queue × StockEvent)) (w : World) → Applied s0 log w.store
    → All P log
    → (log' : List (Queue × StockEvent)) × Applied s0 log' (deliver ds w).store × All P log'
deliver-Applied P [] these s0 log w h all = (log, h, all)
deliver-Applied P (d ∷ ds) these s0 log w h all =
    let (log', h', all') =
      body-Applied P d.queue d.env d.body (λ e b. these (d.queue, e) (inl (refl, b))) s0 log w h
        all in
    deliver-Applied P ds (λ x i. these x (inr i)) s0 log' (handle d.queue d.env d.body w).0 h' all'

acknowledge-All :
    (P : ℕ → Type 0) (r : Result (Unit {0})) (body : Result StockEvent) (es : List StockEvent)
    → ((e : StockEvent) → body ≡ ok e → r ≡ ok tt → P e.event_id)
    → All (λ e. P e.event_id) es
    → All (λ e. P e.event_id) (acknowledge r body es)
acknowledge-All P (err y) body es new old = old
acknowledge-All P (ok u) (err x) es new old = old
acknowledge-All P (ok u) (ok e) es new old = (new e refl refl, old)

body-acknowledged :
    (queue : Queue) (env : Surroundings) (body : Result StockEvent) (w : World) (e : StockEvent)
    → body ≡ ok e
    → (handle queue env body w).1 ≡ ok tt
    → Recorded (handle queue env body w).0.store e.event_id
body-acknowledged queue env (err x) w e b a = cc
body-acknowledged queue env (ok e') w e b a =
    let same : e' ≡ e = ground arith in rw (← same) (handle-acknowledged queue env e' w a)

acknowledged-Recorded :
    (ds : List Delivery) (w : World)
    → All (λ e. Recorded (deliver ds w).store e.event_id) (acknowledged ds w)
acknowledged-Recorded [] w = tt
acknowledged-Recorded (d ∷ ds) w =
    let w' = (handle d.queue d.env d.body w).0 in
    acknowledge-All (Recorded (deliver ds w').store) (handle d.queue d.env d.body w).1 d.body
      (acknowledged ds w')
      (λ e b a. deliver-Recorded ds w' e.event_id (body-acknowledged d.queue d.env d.body w e b a))
      (acknowledged-Recorded ds w')

-- The ids of a log are new to the first store, and no two of them are one.
abbrev pub IsFresh : Store → List (Queue × StockEvent) → Type 0
IsFresh s0 [] = Unit
IsFresh s0 ((queue, e) ∷ log) =
    (is_processed e.event_id s0.processed ≡ false)
    × All (λ x. (x.1.event_id == e.event_id) ≡ false) log
    × IsFresh s0 log

-- Every event of a log is recorded in its store, as is all that was recorded at the start.
Applied-Recorded :
    {s0 s : Store} {log : List (Queue × StockEvent)}
    → Applied s0 log s
    → (id : ℕ) → Recorded s0 id
    → Recorded s id
Applied-Recorded start id h = h
Applied-Recorded (once queue e products before new good s' is) id h =
    let earlier = Applied-Recorded before id h in rw is (ground arith)

All-Recorded :
    (s : Store) (e : StockEvent) (queue : Queue) (products : Table)
    (log : List (Queue × StockEvent))
    → All (λ x. Recorded s x.1.event_id) log
    → All
        (λ x.
          Recorded
            (record { products = products; processed = record_of queue e ∷ s.processed })
            x.1.event_id)
        log
All-Recorded s e queue products [] h = tt
All-Recorded s e queue products ((q, x) ∷ log) h =
    (ground arith, All-Recorded s e queue products log h.1)

log-Recorded :
    {s0 s : Store} {log : List (Queue × StockEvent)}
    → Applied s0 log s
    → All (λ x. Recorded s x.1.event_id) log
log-Recorded start = tt
log-Recorded (once {log} {s} queue e products before new good s' is) = (
  rw is (ground arith),
  subst (λ t. All (λ x. Recorded t x.1.event_id) log) (sym is)
      (All-Recorded s e queue products log (log-Recorded before)),
)

new-ids :
    (s : Store) (e : StockEvent)
    → is_processed e.event_id s.processed ≡ false
    → (log : List (Queue × StockEvent)) → All (λ x. Recorded s x.1.event_id) log
    → All (λ x. (x.1.event_id == e.event_id) ≡ false) log
new-ids s e new [] h = tt
new-ids s e new ((q, x) ∷ log) h = (
  elim (Bool-cases (x.event_id == e.event_id)) [
    | inl same ↦
        let eq : x.event_id ≡ e.event_id = (==_iff _ _).0 same in
        let there : Recorded s e.event_id = rw (← eq) h.0 in absurd (ground arith)
    | inr other ↦ other
  ],
  new-ids s e new log h.1,
)

Applied-IsFresh :
    {s0 s : Store} {log : List (Queue × StockEvent)} → Applied s0 log s → IsFresh s0 log
Applied-IsFresh start = tt
Applied-IsFresh {s0} (once {log} {s} queue e products before new good s' is) = (
  elim (Bool-cases (is_processed e.event_id s0.processed)) [
    | inl old ↦ let there = Applied-Recorded before e.event_id old in absurd (ground arith)
    | inr fresh ↦ fresh
  ],
  new-ids s e new log (log-Recorded before),
  Applied-IsFresh before,
)

-- What is recorded was recorded at the start, or an event of the log has the id.
abbrev pub IsLogged : Store → List (Queue × StockEvent) → ℕ → Type 0
IsLogged s0 log id = Recorded s0 id ⊎ Any (λ x. x.1.event_id ≡ id) log

Applied-IsLogged :
    {s0 s : Store} {log : List (Queue × StockEvent)}
    → Applied s0 log s
    → (id : ℕ) → Recorded s id
    → IsLogged s0 log id
Applied-IsLogged start id h = inl h
Applied-IsLogged (once queue e products before new good s' is) id h =
    elim (Bool-cases (e.event_id == id)) [
      | inl same ↦ inr (inl ((==_iff _ _).0 same))
      | inr other ↦ elim (Applied-IsLogged before id (rw (is, other) at h)) [
        | inl old ↦ inl old
        | inr there ↦ inr (inr there)
      ]
    ]

-- Exactly once. Over every sequence of deliveries to the two stock consumers, with redeliveries,
-- undecodable bodies, failing statements and commits that fail or whose answer is lost, the stock
-- and the records are those of a log of events, each applied successfully once with the product
-- and the quantity that it names. Each event of the log came in one of the deliveries, on the queue
-- under which it is logged; the ids of the log are pairwise different and were not recorded at
-- the start; for every event whose handler returned nil, its id is recorded at the end, and was
-- recorded at the start or is the id of an event of the log. After them, an event whose
-- transaction meets no fault is acknowledged, unless it is new and the stock statement refuses it.
pub deliver_once :
    (ds : List Delivery) (w : World) (queue : Queue) (e : StockEvent) (cache : Fault)
    → (log : List (Queue × StockEvent)) × Applied w.store log (deliver ds w).store
      × All (IsDelivered ds) log
      × IsFresh w.store log
      × All (λ x. Recorded (deliver ds w).store x.event_id) (acknowledged ds w)
      × All (λ x. IsLogged w.store log x.event_id) (acknowledged ds w)
      × Progresses queue e (deliver ds w).store (handle queue (calm cache) (ok e) (deliver ds w)).1
deliver_once ds w queue e cache =
    let (log, h, from) = deliver-Applied (IsDelivered ds) ds (λ x i. i) w.store [] w start tt in
    let recorded = acknowledged-Recorded ds w in
    (
      log,
      h,
      from,
      Applied-IsFresh h,
      recorded,
      All-map _ _ (λ x r. Applied-IsLogged h x.event_id r) (acknowledged ds w) recorded,
      handle-Progresses queue cache e (deliver ds w),
    )
