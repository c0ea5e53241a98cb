-- ===== src/Product/Books.antt =====
-- The books of one product over a sequence of writes: what was reserved, given back and sold.
use golang_gin.Prelude.{ℕ, ◌≡◌, some, List, [], ◌∷◌, ◌==◌, Bool-cases, inl, inr, All, arith}
use mathlib.Core.Path.{subst}
use golang_gin.Prelude.Int.{ℤ, ◌+ℤ◌, ◌≤ℤ◌, int_laws, eq_of_parts, parts_of_eq}
use golang_gin.Product.{Product, Table}
use golang_gin.Product.Stock.{IsStocked, IsValid}
use golang_gin.Product.Inventory.{view}
use golang_gin.Product.Ledger.{Write, apply, after, run, step-IsValid, run-IsValid}
use golang_gin.Product.Entries.{reserved_by, released_by, sold_by, total_of, IsBooked, step-Booked}

-- The books of two writes in a row.
IsBooked-trans :
    {t g s t' g' s' : ℤ} {r x r' : Product}
    → IsBooked t g s r x
    → IsBooked t' g' s' x r'
    → IsBooked (t +ℤ t') (g +ℤ g') (s +ℤ s') r r'
IsBooked-trans a b = record {
  reserved =
      eq_of_parts _ _ (omega (int_laws, parts_of_eq _ _ a.reserved, parts_of_eq _ _ b.reserved));
  total = eq_of_parts _ _ (omega (int_laws, parts_of_eq _ _ a.total, parts_of_eq _ _ b.total));
}

-- Over every sequence of writes, whichever of them fail, a product stays in the table and its
-- books balance: its reserved stock is what it was plus all that was reserved of it, less all that
-- was released or sold; its total is what it was less all that was sold. Only writes that report
-- success are counted.
pub run-IsBooked :
    (ws : List Write) (id : ℕ) (rows : Table) (r : Product)
    → IsValid rows
    → view rows id ≡ some r
    → (r' : Product) × (view (run ws rows) id ≡ some r')
      × IsBooked
          (total_of (reserved_by id) ws rows)
          (total_of (released_by id) ws rows)
          (total_of (sold_by id) ws rows)
          r
          r'
run-IsBooked [] id rows r v found = (r, found, omega int_laws)
run-IsBooked (w ∷ ws) id rows r v found =
    let (x, found', now) = step-Booked w id rows r v found in
    let (r', end, later) =
      run-IsBooked ws id (after (apply w rows) rows) x (step-IsValid w rows v) found' in
    (r', end, IsBooked-trans now later)

IsStocked-found :
    (id : ℕ) (rows : Table) (r : Product) → All IsStocked rows → view rows id ≡ some r → IsStocked r
IsStocked-found id [] r h e = cc
IsStocked-found id (x ∷ xs) r h e = elim (Bool-cases (x.id == id)) [
  | inl same ↦ let here : x ≡ r = ground arith in subst IsStocked here h.0
  | inr other ↦ IsStocked-found id xs r h.1 (rw other at e)
]

-- Stock is never oversold: over every sequence of writes on a valid table, the items of a product
-- that were sold are at most those that it had at the start.
pub sold-le-total :
    (ws : List Write) (id : ℕ) (rows : Table) (r : Product)
    → IsValid rows
    → view rows id ≡ some r
    → total_of (sold_by id) ws rows ≤ℤ r.total_stock
sold-le-total ws id rows r v found =
    let (r', end, books) = run-IsBooked ws id rows r v found in
    let s = IsStocked-found id (run ws rows) r' (run-IsValid ws rows v).stocked end in
    omega (int_laws, parts_of_eq _ _ books.total, s.reserved_nonneg, s.within)
