-- ===== src/Product.antt =====
-- services/product-service/internal/model/product.go and internal/repository/product.go: products,
-- their stock, and the statements on the table `products` (migrations/000001). The timestamps are
-- left out: no branch reads them.
pub mod Stock
pub mod Delivery
pub mod Once
pub mod Consumer
pub mod Entries
pub mod Books
pub mod Ledger
pub mod Inventory
pub mod Search
pub mod Cached
pub mod Fresh
pub mod Changes
pub mod Traffic
pub mod Coherence
pub mod Reads
pub mod Service
pub mod Admin
pub mod Simulation
pub mod Server
pub mod Gate
pub mod Collisions
use golang_gin.Prelude.{
  ℕ, zero, suc, ◌≡◌, String, Bool, true, false, ◌&&◌, not, Option, none, some, List, [], ◌∷◌,
  if◌then◌else◌, ◌==◌, contains,
}
use golang_gin.Prelude.Int.{ℤ, pos, ◌+ℤ◌, ◌-ℤ◌, leb_ℤ, ltb_ℤ}
use golang_gin.Errors.{
  not_found, invalid_input, internal, GoError, new, caused, foreign, wrap, Result, ok, err, ◌>>=◌,
  ◌>>◌, guard, Fault,
}
use golang_gin.Db.{
  update_where, count_where, find_where, select_where, checks_where, exec_update, exec_insert, done,
  duplicate, failed, RowsFault, smooth, query_failed, scan_failed, iteration_failed,
}

pub record Product : Type 0 where
  pub id : ℕ  -- uuid.UUID, whose nil is 0
  pub name : String
  pub description : String
  pub category : String
  pub price : ℤ  -- int64
  pub total_stock : ℤ  -- int32
  pub reserved_stock : ℤ  -- int32
  pub is_active : Bool

-- `AvailableStock`
unfoldable pub available_stock : Product → ℤ
available_stock p = p.total_stock -ℤ p.reserved_stock

-- `Validate`
unfoldable pub validate : Product → Result (Unit {0})
validate p = do
  guard (leb_ℤ (pos 0) p.price) invalid_input "price cannot be negative"
  guard (leb_ℤ p.reserved_stock p.total_stock) invalid_input
      "reserved stock cannot exceed total stock"

abbrev pub max_int32 : ℤ
max_int32 = pos 2147483647

-- The CHECK constraints of the table, and the range of its INTEGER columns.
unfoldable pub row_checks : Product → Bool
row_checks p =
    leb_ℤ (pos 0) p.price
    && leb_ℤ (pos 0) p.total_stock
    && leb_ℤ (pos 0) p.reserved_stock
    && leb_ℤ p.reserved_stock p.total_stock
    && leb_ℤ p.total_stock max_int32

-- The database's error on a row that breaks a constraint.
abbrev pub check_violation : GoError
check_violation = foreign "new row violates check constraint"

abbrev pub duplicate_key : GoError
duplicate_key = foreign "duplicate key value violates unique constraint"

abbrev pub Table : Type 0
Table = List Product

-- The row that `INSERT … RETURNING` stores, with the columns' defaults.
abbrev pub inserted : ℕ → Product → Product
inserted fresh p = record p { id = fresh; reserved_stock = pos 0; is_active = true }

-- `Create`; `fresh` is the id that `gen_random_uuid()` makes.
unfoldable pub create : Fault → ℕ → Option Product → Table → Result (Table × Product)
unfolding validate row_checks exec_insert
create fault fresh none rows = err (new invalid_input "product cannot be nil")
create fault fresh (some p) rows = do
  validate p
  elim (exec_insert check_violation row_checks fault (λ r. r.id == fresh) (inserted fresh p) rows) [
    | done rows' ↦ ok (rows', inserted fresh p)
    | duplicate ↦ err (caused internal "failed to create product in database" duplicate_key)
    | failed e ↦ err (caused internal "failed to create product in database" e)
  ]

-- `GetByID`
unfoldable pub get_by_id : Fault → ℕ → Table → Result Product
get_by_id fault id rows = do
  guard (not (id == 0)) invalid_input "Product ID cannot be nil"
  elim fault [
    | some e ↦ err (caused internal "failed to get product by id" e)
    | none ↦ elim (find_where (λ r. r.id == id) rows) [
      | none ↦ err (new not_found "product not found")
      | some p ↦ ok p
    ]
  ]

-- `GetByIDs`: only active products. The error of the iteration is passed on as it is.
unfoldable pub get_by_ids : RowsFault → List ℕ → Table → Result (List Product)
get_by_ids fault [] rows = ok []
get_by_ids fault (id ∷ ids) rows = elim fault [
  | query_failed e ↦ err (caused internal "failed to query products by ids" e)
  | scan_failed e ↦ err (caused internal "failed to scan product row" e)
  | iteration_failed e ↦ err e
  | smooth ↦ ok (select_where (λ r. contains r.id (id ∷ ids) && r.is_active) rows)
]

-- `Update`: the columns of the stock are not assigned.
abbrev pub edited : Product → Product → Product
edited p r = record r {
  name = p.name;
  description = p.description;
  category = p.category;
  price = p.price;
  is_active = p.is_active;
}

unfoldable pub update : Fault → Option Product → Table → Result Table
unfolding validate row_checks exec_update
update fault none rows = err (new invalid_input "product cannot be nil")
update fault (some p) rows = do
  validate p
  elim (exec_update check_violation row_checks fault (λ r. r.id == p.id) (edited p) rows) [
    | err e ↦ err (caused internal "failed to update product" e)
    | ok (rows', zero) ↦ err (new not_found "product not found")
    | ok (rows', suc n) ↦ ok rows'
  ]

-- The end of the operations that test `RowsAffected`.
abbrev pub affected : Result (Table × ℕ) → String → GoError → Result Table
affected (err e) text missing = err (caused internal text e)
affected (ok (rows, zero)) text missing = err missing
affected (ok (rows, suc n)) text missing = ok rows

-- `Delete`, a soft delete
unfoldable pub delete : Fault → ℕ → Table → Result Table
unfolding row_checks exec_update
delete fault id rows =
    affected
      (exec_update check_violation row_checks fault (λ r. (r.id == id) && r.is_active)
        (λ r. record r { is_active = false }) rows)
      "failed to soft delete product" (new not_found "product not found or already deleted")

-- The conditions and assignments of the three statements on the stock.
abbrev pub can_reserve : ℕ → ℤ → Product → Bool
can_reserve id q r = (r.id == id) && (r.is_active && leb_ℤ q (r.total_stock -ℤ r.reserved_stock))

abbrev pub holds : ℕ → ℤ → Product → Bool
holds id q r = (r.id == id) && leb_ℤ q r.reserved_stock

abbrev pub reserve_row : ℤ → Product → Product
reserve_row q r = record r { reserved_stock = r.reserved_stock +ℤ q }

abbrev pub release_row : ℤ → Product → Product
release_row q r = record r { reserved_stock = r.reserved_stock -ℤ q }

abbrev pub confirm_row : ℤ → Product → Product
confirm_row q r = record r {
  total_stock = r.total_stock -ℤ q;
  reserved_stock = r.reserved_stock -ℤ q;
}

-- `ReserveStock`
unfoldable pub reserve_stock : Fault → ℕ → ℤ → Table → Result Table
unfolding row_checks exec_update
reserve_stock fault id q rows = do
  guard (ltb_ℤ (pos 0) q) invalid_input "quantity must be positive"
  affected (exec_update check_violation row_checks fault (can_reserve id q) (reserve_row q) rows)
      "failed to reserve stock" (new invalid_input "insufficient stock or product not available")

-- `ReleaseStock`
unfoldable pub release_stock : Fault → ℕ → ℤ → Table → Result Table
unfolding row_checks exec_update
release_stock fault id q rows = do
  guard (ltb_ℤ (pos 0) q) invalid_input "quantity must be positive"
  affected (exec_update check_violation row_checks fault (holds id q) (release_row q) rows)
      "failed to release stock" (new invalid_input "cannot release more stock than reserved")

-- `ConfirmStock`
unfoldable pub confirm_stock : Fault → ℕ → ℤ → Table → Result Table
unfolding row_checks exec_update
confirm_stock fault id q rows = do
  guard (ltb_ℤ (pos 0) q) invalid_input "quantity must be positive"
  affected (exec_update check_violation row_checks fault (holds id q) (confirm_row q) rows)
      "failed to confirm stock" (new invalid_input "cannot confirm more stock than reserved")
