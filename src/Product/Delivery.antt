-- ===== src/Product/Delivery.antt =====
-- At-least-once delivery to the two stock consumers: whatever is redelivered, reordered, rolled back
-- or lost, the stock changes once for each event.
use golang_gin.Prelude.{
  ℕ, ◌≡◌, refl, String, true, false, none, some, List, [], ◌∷◌, Bool-cases, Option-cases, inl, inr,
  ◌⊎◌, arith, All,
}
use golang_gin.Prelude.Int.{ℤ}
use golang_gin.Errors.{GoError, Result, ok, err, Fault, Result-cases}
use golang_gin.Db.{exec_update, committed, with_tx}
use golang_gin.Db.Laws.{Outcome, with_tx-Outcome}
use golang_gin.Product.{Product, Table, release_stock, confirm_stock}
use golang_gin.Product.Consumer.{
  ProcessedEvent, Store, StockEvent, is_processed, mark_processed, Surroundings, process, World,
  finish, handle_confirm, handle_release,
}

-- The two queues of the service, with the statement and the event type of their consumers.
pub data Queue : Type 0 where
  confirm_queue release_queue : Queue

abbrev pub stock_change : Queue → Fault → ℕ → ℤ → Table → Result Table
stock_change confirm_queue = confirm_stock
stock_change release_queue = release_stock

abbrev pub event_type : Queue → String
event_type confirm_queue = "stock.confirm.requested"
event_type release_queue = "stock.release.requested"

abbrev pub handle : Queue → Surroundings → Result StockEvent → World → World × Result (Unit {0})
handle confirm_queue = handle_confirm
handle release_queue = handle_release

-- One delivery: a body on a queue, and what its surroundings do.
pub record Delivery : Type 0 where
  pub queue : Queue
  pub env : Surroundings
  pub body : Result StockEvent

abbrev pub deliver : List Delivery → World → World
deliver [] w = w
deliver (d ∷ ds) w = deliver ds (handle d.queue d.env d.body w).0

abbrev pub record_of : Queue → StockEvent → ProcessedEvent
record_of queue e = record {
  event_id = e.event_id;
  event_type = event_type queue;
  product_id = e.product_id;
  order_id = e.order_id;
}

-- From the store `s0` the events of the log, the latest first, were each applied once: an event is
-- applied only if its id is not recorded, and its record is written with its effect.
pub data Applied (s0 : Store) : List (Queue × StockEvent) → Store → Type 0 where
  start : Applied s0 [] s0
  once :
      {log : List (Queue × StockEvent)} {s : Store} (queue : Queue) (e : StockEvent)
      (products : Table)
      → Applied s0 log s
      → is_processed e.event_id s.processed ≡ false
      → stock_change queue none e.product_id e.quantity s.products ≡ ok products
      → (s' : Store)
      → s' ≡ record { products = products; processed = record_of queue e ∷ s.processed }
      → Applied s0 ((queue, e) ∷ log) s'

-- A statement with a fault does not succeed.
faultless :
    (queue : Queue) (fault : Fault) (id : ℕ) (q : ℤ) (rows rows' : Table)
    → stock_change queue fault id q rows ≡ ok rows'
    → stock_change queue none id q rows ≡ ok rows'
unfolding confirm_stock release_stock exec_update
faultless queue none id q rows rows' h = h
faultless confirm_queue (some x) id q rows rows' h = absurd (ground arith)
faultless release_queue (some x) id q rows rows' h = absurd (ground arith)

-- What the transaction does to the store, if it succeeds.
abbrev Step : Queue → StockEvent → Store → Store → Type 0
Step queue e s s' =
    ((is_processed e.event_id s.processed ≡ true) × (s' ≡ s))
    ⊎ ((products : Table) × (is_processed e.event_id s.processed ≡ false)
        × (stock_change queue none e.product_id e.quantity s.products ≡ ok products)
        × (s' ≡ record { products = products; processed = record_of queue e ∷ s.processed }))

abbrev OfOk : (Store → Type 0) → Result (Store × Unit {0}) → Type 0
OfOk P (err x) = Unit
OfOk P (ok (s', _)) = P s'

process-Step :
    (queue : Queue) (env : Surroundings) (e : StockEvent) (s : Store)
    → OfOk (Step queue e s) (process (stock_change queue) (event_type queue) env e s)
unfolding process
process-Step queue env e s = elim (Option-cases env.mark) [
  | inr (x, m) ↦ rw m tt
  | inl m ↦ elim (Bool-cases (is_processed e.event_id s.processed)) [
    | inl old ↦ rw (m, old) (inl (old, refl))
    | inr new ↦
        elim (Result-cases (stock_change queue env.stock e.product_id e.quantity s.products)) [
          | inl (x, bad) ↦ rw (m, new, bad) tt
          | inr (products, good) ↦
              rw (m, new, good)
                (inr
                  (products, new, faultless queue env.stock e.product_id e.quantity _ _ good, refl))
        ]
  ]
]

-- What a handled event does to the store: nothing, with an error that has it redelivered; or the
-- step of the transaction.
abbrev Handled : Queue → StockEvent → Store → World × Result (Unit {0}) → Type 0
Handled queue e s r = ((r.0.store ≡ s) × (x : GoError) × (r.1 ≡ err x)) ⊎ Step queue e s r.0.store

finish-Handled :
    (queue : Queue) (env : Surroundings) (e : StockEvent) (cached : List Product) (s : Store)
    (r : Store × Result (Unit {0}))
    → Outcome (process (stock_change queue) (event_type queue) env e) s r
    → Handled queue e s (finish env e cached r)
unfolding finish
finish-Handled queue env e cached s (s1, err y) (inl (same, x, bad)) = inl (same, y, refl)
finish-Handled queue env e cached s (s1, ok u) (inl (same, x, bad)) = cc
finish-Handled queue env e cached s (s1, err y) (inr (s', a, good, is)) =
    inr (rw is (rw good at (process-Step queue env e s)))
finish-Handled queue env e cached s (s1, ok u) (inr (s', a, good, is)) =
    inr (rw is (rw good at (process-Step queue env e s)))

handle-Handled :
    (queue : Queue) (env : Surroundings) (e : StockEvent) (w : World)
    → Handled queue e w.store (handle queue env (ok e) w)
unfolding handle_confirm handle_release
handle-Handled confirm_queue env e w = finish-Handled confirm_queue env e w.cached w.store _ (
    with_tx-Outcome (process (stock_change confirm_queue) (event_type confirm_queue) env e) w.store
      env.begin env.commit)
handle-Handled release_queue env e w = finish-Handled release_queue env e w.cached w.store _ (
    with_tx-Outcome (process (stock_change release_queue) (event_type release_queue) env e) w.store
      env.begin env.commit)

-- The log grows by the handled event or not at all.
pub handle-Applied :
    (P : Queue × StockEvent → Type 0) (queue : Queue) (env : Surroundings) (e : StockEvent)
    → P (queue, e)
    → (s0 : Store) (log : List (Queue × StockEvent)) (w : World) → Applied s0 log w.store
    → All P log
    → (log' : List (Queue × StockEvent)) × Applied s0 log' (handle queue env (ok e) w).0.store
      × All P log'
handle-Applied P queue env e this s0 log w h all = elim (handle-Handled queue env e w) [
  | inl (same, _, _) ↦ (log, rw same h, all)
  | inr step ↦ elim step [
    | inl (_, same) ↦ (log, rw same h, all)
    | inr (products, new, good, is) ↦
        ((queue, e) ∷ log, once queue e products h new good _ is, (this, all))
  ]
]

-- Surroundings in which nothing fails, but for the cache.
abbrev pub calm : Fault → Surroundings
calm cache = record { begin = none; mark = none; stock = none; commit = committed; cache = cache }

-- There an event is acknowledged, unless it is new and the stock does not allow it.
abbrev pub Progresses : Queue → StockEvent → Store → Result (Unit {0}) → Type 0
Progresses queue e s r =
    (r ≡ ok tt)
    ⊎ ((x : GoError) × (is_processed e.event_id s.processed ≡ false)
        × (stock_change queue none e.product_id e.quantity s.products ≡ err x))

pub handle-Progresses :
    (queue : Queue) (cache : Fault) (e : StockEvent) (w : World)
    → Progresses queue e w.store (handle queue (calm cache) (ok e) w).1
unfolding handle_confirm handle_release process mark_processed finish with_tx
handle-Progresses confirm_queue cache e w = ground arith
handle-Progresses release_queue cache e w = ground arith

-- Whether the event with the id is recorded.
abbrev pub Recorded : Store → ℕ → Type 0
Recorded s id = is_processed id s.processed ≡ true

-- A record is never lost.
pub handle-Recorded :
    (queue : Queue) (env : Surroundings) (e : StockEvent) (w : World) (id : ℕ)
    → Recorded w.store id
    → Recorded (handle queue env (ok e) w).0.store id
handle-Recorded queue env e w id h = elim (handle-Handled queue env e w) [
  | inl (same, _, _) ↦ rw same h
  | inr step ↦ elim step [
    | inl (_, same) ↦ rw same h
    | inr (products, new, good, is) ↦ rw is (ground arith)
  ]
]

-- An acknowledged event is recorded.
pub handle-acknowledged :
    (queue : Queue) (env : Surroundings) (e : StockEvent) (w : World)
    → (handle queue env (ok e) w).1 ≡ ok tt
    → Recorded (handle queue env (ok e) w).0.store e.event_id
handle-acknowledged queue env e w a = elim (handle-Handled queue env e w) [
  | inl (_, x, bad) ↦ cc
  | inr step ↦ elim step [
    | inl (old, same) ↦ rw same old
    | inr (products, new, good, is) ↦ rw is (ground arith)
  ]
]

-- The events that the run acknowledges: their handler returned nil.
abbrev pub acknowledge : Result (Unit {0}) → Result StockEvent → List StockEvent → List StockEvent
acknowledge (ok _) (ok e) es = e ∷ es
acknowledge _ _ es = es

abbrev pub acknowledged : List Delivery → World → List StockEvent
acknowledged [] w = []
acknowledged (d ∷ ds) w =
    let r = handle d.queue d.env d.body w in acknowledge r.1 d.body (acknowledged ds r.0)

-- A body that is no event changes nothing.
pub handle_undecoded :
    (queue : Queue) (env : Surroundings) (x : GoError) (w : World)
    → handle queue env (err x) w ≡ (w, ok tt)
unfolding handle_confirm handle_release
handle_undecoded confirm_queue env x w = refl
handle_undecoded release_queue env x w = refl
