-- ===== src/Order/Table.antt =====
-- services/order-service/internal/repository/order.go: the statements on `orders` and `order_items`
-- (migrations/000001 and 000002). The rows of an order's items stand with the order, in the order
-- of their insertion, so that the foreign key and the order of the query are kept.
use golang_gin.Prelude.{
  ℕ, zero, suc, Bool, true, false, ◌&&◌, ◌||◌, not, Option, none, some, List, [], ◌∷◌,
  if◌then◌else◌, ◌==◌, map,
}
use golang_gin.Prelude.Int.{ℤ, pos, ◌*ℤ◌, leb_ℤ, ltb_ℤ, pos_part}
use golang_gin.Errors.{
  not_found, already_exists, invalid_input, internal, GoError, new, caused, foreign, Result, ok,
  err, ◌>>=◌, ◌>>◌, Fault, check,
}
use golang_gin.Db.{
  find_where, select_where, exec_update, is_some, Commit, with_tx, RowsFault, smooth, query_failed,
  scan_failed, iteration_failed,
}
use golang_gin.Order.{OrderStatus, pending, status_eq, OrderItem, Order, validate}

abbrev pub Table : Type 0
Table = List Order

abbrev pub max_int64 : ℤ
max_int64 = pos 9223372036854775807

-- The CHECK constraints of `order_items`, with the range of the generated column `subtotal`.
unfoldable pub item_checks : OrderItem → Bool
item_checks i =
    leb_ℤ (pos 0) i.unit_price
    && ltb_ℤ (pos 0) i.quantity
    && leb_ℤ (i.unit_price *ℤ i.quantity) max_int64

unfoldable pub all_item_checks : List OrderItem → Bool
unfolding item_checks
all_item_checks [] = true
all_item_checks (i ∷ is) = item_checks i && all_item_checks is

-- The constraint `uq_order_product`: no product twice in an order.
abbrev pub has_product : ℕ → List OrderItem → Bool
has_product id [] = false
has_product id (i ∷ is) = (i.product_id == id) || has_product id is

unfoldable pub products_differ : List OrderItem → Bool
products_differ [] = true
products_differ (i ∷ is) = not (has_product i.product_id is) && products_differ is

abbrev pub check_violation : GoError
check_violation = foreign "new row violates check constraint"

abbrev pub duplicate_key : GoError
duplicate_key = foreign "duplicate key value violates unique constraint"

-- The faults of `Create`: the transaction, its two statements, and the rows that the second returns.
pub record CreateEnv : Type 0 where
  pub begin : Fault
  pub insert_order : Fault
  pub insert_items : Fault
  pub returned : RowsFault
  pub reports_late : Bool  -- the driver reports a violated constraint with the rows, not by `Query`
  pub commit : Commit
  pub fresh : ℕ  -- the id that `gen_random_uuid()` makes

-- The items as the second statement stores them, the subtotal being generated.
abbrev pub stored_items : ℕ → List OrderItem → List OrderItem
stored_items id [] = []
stored_items id (i ∷ is) =
    record i { order_id = id; subtotal = i.unit_price *ℤ i.quantity } ∷ stored_items id is

-- A violated constraint of the second statement: the first error if `Query` reports it, else what
-- `rows.Err()` comes to.
abbrev pub refused : CreateEnv → GoError → GoError → GoError
refused env early violation =
    if env.reports_late
    then caused internal "error iterating inserted order items" violation
    else early

-- `INSERT INTO order_items … RETURNING`, and the scan of its rows.
unfoldable pub insert_items : CreateEnv → Order → Result (List OrderItem)
unfolding all_item_checks products_differ
insert_items env o = do
  check env.insert_items internal "failed to insert order items"
  (if all_item_checks o.items
      then ok tt
      else err (
          refused env (caused internal "failed to insert order items" check_violation)
            check_violation))
  (if products_differ o.items
      then ok tt
      else err (refused env (new invalid_input "duplicate product in order items") duplicate_key))
  elim env.returned [
    | query_failed e ↦ err (caused internal "failed to insert order items" e)
    | scan_failed e ↦ err (caused internal "failed to scan inserted order item" e)
    | iteration_failed e ↦ err (caused internal "error iterating inserted order items" e)
    | smooth ↦ ok (stored_items env.fresh o.items)
  ]

-- The callback of `Create`: the order's row, with the default status, and the rows of its items.
unfoldable pub insert : CreateEnv → Order → Table → Result (Table × Order)
unfolding insert_items
insert env o rows = do
  check env.insert_order internal "failed to insert order"
  (if leb_ℤ (pos 0) o.total_amount
      then ok tt
      else err (caused internal "failed to insert order" check_violation))
  (if is_some (find_where (λ r. r.id == env.fresh) rows)
      then err (caused internal "failed to insert order" duplicate_key)
      else ok tt)
  let o' = record o { id = env.fresh; status = pending }
  items ← insert_items env o'
  let o'' = record o' { items = items }
  ok (o'' ∷ rows, o'')

-- `Create` behind its validation: the transaction.
abbrev pub create_checked : CreateEnv → Table → Result Order → Table × Result Order
create_checked env rows (err e) = (rows, err e)
create_checked env rows (ok o) = with_tx env.begin env.commit (insert env o) rows

-- `Create`
unfoldable pub create : CreateEnv → Option Order → Table → Table × Result Order
unfolding validate insert
create env none rows = (rows, err (new invalid_input "order cannot be nil"))
create env (some o) rows = create_checked env rows (validate o)

-- `GetByID`, with the faults of its two queries.
unfoldable pub get_by_id : Fault → RowsFault → ℕ → Table → Result Order
get_by_id fault items id rows = do
  check fault internal "failed to get order by id"
  elim (find_where (λ o. o.id == id) rows) [
    | none ↦ err (new not_found "order not found")
    | some o ↦ elim items [
      | query_failed e ↦ err (caused internal "failed to load order items" e)
      | scan_failed e ↦ err (caused internal "failed to scan order item row" e)
      | iteration_failed e ↦ err (caused internal "error iterating order item rows" e)
      | smooth ↦ ok o
    ]
  ]

abbrev pub limited {ℓ} : {A : Type ℓ} → ℕ → ℕ → List A → List A
limited offset limit [] = []
limited (suc offset) limit (x ∷ xs) = limited offset limit xs
limited zero zero (x ∷ xs) = []
limited zero (suc limit) (x ∷ xs) = x ∷ limited zero limit xs

abbrev pub without_items : Order → Order
without_items o = record o { items = [] }

-- `ListByUser`: the newest first, without their items; `limit` and `offset` are its Go `int`s.
unfoldable pub list_by_user : RowsFault → ℕ → ℤ → ℤ → Table → Result (List Order)
list_by_user fault user limit offset rows = elim fault [
  | query_failed e ↦ err (caused internal "failed to list orders by user" e)
  | scan_failed e ↦ err (caused internal "failed to scan order row" e)
  | iteration_failed e ↦ err (caused internal "error iterating order rows" e)
  | smooth ↦
      let count = if leb_ℤ limit (pos 0) then 20 else pos_part limit in
      let skip = pos_part offset in
      ok (map without_items (limited skip count (select_where (λ o. o.user_id == user) rows)))
]

-- `UpdateStatus`: the statement assigns the status of a pending order only.
unfoldable pub update_status : Fault → ℕ → OrderStatus → Table → Result Table
unfolding exec_update
update_status fault id next rows =
    elim (exec_update check_violation (λ o. true) fault
      (λ o. (o.id == id) && status_eq o.status pending) (λ o. record o { status = next }) rows) [
        | err e ↦ err (caused internal "failed to update order status" e)
        | ok (rows', zero) ↦ err (new already_exists "order is not in a pending state")
        | ok (rows', suc n) ↦ ok rows'
      ]
