-- ===== src/Product/Consumer.antt =====
-- services/product-service/internal/repository/event.go and internal/messaging: the consumers of
-- stock.confirm.requested and stock.release.requested. Both write the table of processed events
-- and the stock in one transaction, and drop the product from the cache afterwards.
use golang_gin.Prelude.{
  ℕ, String, Bool, true, false, none, some, List, [], ◌∷◌, if◌then◌else◌, ◌==◌,
}
use golang_gin.Prelude.Int.{ℤ}
use golang_gin.Errors.{internal, Result, ok, err, ◌>>=◌, ◌>>◌, Fault, check}
use golang_gin.Db.{find_where, is_some, Commit, with_tx}
use golang_gin.Product.{Product, Table, release_stock, confirm_stock}

-- A row of `processed_events`.
pub record ProcessedEvent : Type 0 where
  pub event_id : ℕ
  pub event_type : String
  pub product_id : ℕ
  pub order_id : ℕ

pub record Store : Type 0 where
  pub products : Table
  pub processed : List ProcessedEvent

-- `events.StockConfirmRequested` and `events.StockReleaseRequested` as far as the consumers read.
pub record StockEvent : Type 0 where
  pub event_id : ℕ
  pub order_id : ℕ
  pub product_id : ℕ
  pub quantity : ℤ

abbrev pub is_processed : ℕ → List ProcessedEvent → Bool
is_processed id rows = is_some (find_where (λ r. r.event_id == id) rows)

-- `MarkProcessed`: `INSERT … ON CONFLICT (event_id) DO NOTHING`, and whether no row was affected.
unfoldable pub mark_processed :
    Fault → ProcessedEvent → List ProcessedEvent → Result (List ProcessedEvent × Bool)
mark_processed fault e rows = do
  check fault internal "failed to record processed event"
  if is_processed e.event_id rows then ok (rows, true) else ok (e ∷ rows, false)

-- What the surroundings of one delivery do: the transaction, its two statements, the cache.
pub record Surroundings : Type 0 where
  pub begin : Fault
  pub mark : Fault
  pub stock : Fault
  pub commit : Commit
  pub cache : Fault

-- The callback of the transaction, over the stock statement of the consumer.
unfoldable pub process :
    (Fault → ℕ → ℤ → Table → Result Table)
    → String
    → Surroundings
    → StockEvent
    → Store
    → Result (Store × Unit {0})
unfolding mark_processed
process change type env e s = do
  (rows, already) ←
      mark_processed env.mark
        (record {
          event_id = e.event_id;
          event_type = type;
          product_id = e.product_id;
          order_id = e.order_id;
        })
        s.processed
  let done = do
    products ← change env.stock e.product_id e.quantity s.products
    ok (record { products = products; processed = rows }, tt)
  if already then ok (record s { processed = rows }, tt) else done

-- The product service's data: the database, and the cached products, keyed by their id.
pub record World : Type 0 where
  pub store : Store
  pub cached : List Product

-- `Del` of the product's key.
abbrev pub evict : ℕ → List Product → List Product
evict id [] = []
evict id (p ∷ ps) = if p.id == id then evict id ps else p ∷ evict id ps

-- `InvalidateProduct`, whose error is only logged.
unfoldable pub invalidate_product : Fault → ℕ → List Product → List Product
invalidate_product none id cached = evict id cached
invalidate_product (some e) id cached = cached

-- `Handle` behind the decoding: its end after the transaction.
unfoldable pub finish :
    Surroundings → StockEvent → List Product → Store × Result (Unit {0}) → World × Result (Unit {0})
unfolding invalidate_product
finish env e cached (s, err x) = (record { store = s; cached = cached }, err x)
finish env e cached (s, ok _) =
    (record { store = s; cached = invalidate_product env.cache e.product_id cached }, ok tt)

-- `Handle` of StockConfirmConsumer. A body that is no event is acknowledged and dropped.
unfoldable pub handle_confirm : Surroundings → Result StockEvent → World → World × Result (Unit {0})
unfolding process finish
handle_confirm env (err x) w = (w, ok tt)
handle_confirm env (ok e) w =
    finish env e w.cached
      (with_tx env.begin env.commit (process confirm_stock "stock.confirm.requested" env e) w.store)

-- `Handle` of StockReleaseConsumer.
unfoldable pub handle_release : Surroundings → Result StockEvent → World → World × Result (Unit {0})
unfolding process finish
handle_release env (err x) w = (w, ok tt)
handle_release env (ok e) w =
    finish env e w.cached
      (with_tx env.begin env.commit (process release_stock "stock.release.requested" env e) w.store)
