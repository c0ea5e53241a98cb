-- ===== src/Product/Stock.antt =====
-- The rules of the stock: what the three statements of the saga do on every branch.
use golang_gin.Prelude.{ℕ, ◌≡◌, Bool, true, none, some, if◌then◌else◌, All, arith}
use golang_gin.Prelude.Int.{ℤ, pos, ◌≤ℤ◌, ltb_ℤ, +ℤ_parts, -ℤ_parts}
use golang_gin.Errors.{ok}
use golang_gin.Db.{update_where, count_where, exec_update}
use golang_gin.Db.Laws.{
  All-update_where, checks_where-true, find_key, Keyed, by_key, count-absent, count-by_key,
  Keyed-update,
}
use golang_gin.Product.{
  Product, Table, max_int32, row_checks, check_violation, can_reserve, holds, reserve_row,
  release_row, confirm_row,
}

-- A row that the constraints of the table allow.
pub record IsStocked (r : Product) : Type 0 where
  pub priced : pos 0 ≤ℤ r.price
  pub reserved_nonneg : pos 0 ≤ℤ r.reserved_stock
  pub within : r.reserved_stock ≤ℤ r.total_stock
  pub bounded : r.total_stock ≤ℤ max_int32

-- The invariant of the table: allowed rows, and no id twice.
pub record IsValid (rows : Table) : Type 0 where
  pub stocked : All IsStocked rows
  pub keyed : Keyed (λ r. r.id) rows

pub row_checks-IsStocked : (r : Product) → IsStocked r → row_checks r ≡ true
unfolding row_checks
row_checks-IsStocked r h = ground arith

pub reserve_row-IsStocked :
    (id : ℕ) (q : ℤ)
    → ltb_ℤ (pos 0) q ≡ true
    → (r : Product) → can_reserve id q r ≡ true
    → IsStocked r
    → IsStocked (reserve_row q r)
reserve_row-IsStocked id q pos_q r c h =
    ground (arith, +ℤ_parts r.reserved_stock q, -ℤ_parts r.total_stock r.reserved_stock)

pub release_row-IsStocked :
    (id : ℕ) (q : ℤ)
    → ltb_ℤ (pos 0) q ≡ true
    → (r : Product) → holds id q r ≡ true
    → IsStocked r
    → IsStocked (release_row q r)
release_row-IsStocked id q pos_q r c h = ground (arith, -ℤ_parts r.reserved_stock q)

pub confirm_row-IsStocked :
    (id : ℕ) (q : ℤ)
    → ltb_ℤ (pos 0) q ≡ true
    → (r : Product) → holds id q r ≡ true
    → IsStocked r
    → IsStocked (confirm_row q r)
confirm_row-IsStocked id q pos_q r c h =
    ground (arith, -ℤ_parts r.reserved_stock q, -ℤ_parts r.total_stock q)

-- One guarded statement on the row of an id, with a condition and an assignment that keep the
-- rows allowed and name no key.
module _ (id : ℕ) (c : Product → Bool) (f : Product → Product)
    (same : (r : Product) → (f r).id ≡ r.id)
    (keep : (r : Product) → by_key (λ r. r.id) id c r ≡ true → IsStocked r → IsStocked (f r))
    (rows : Table) (v : IsValid rows) where
  -- The constraints never stop it.
  pub exec_update-checked :
      exec_update check_violation row_checks none (by_key (λ r. r.id) id c) f rows
      ≡ ok (
        update_where (by_key (λ r. r.id) id c) f rows,
        count_where (by_key (λ r. r.id) id c) rows,
      )
  unfolding exec_update
  exec_update-checked = rw (
      checks_where-true IsStocked (by_key (λ r. r.id) id c) f row_checks
        (λ r e h. row_checks-IsStocked (f r) (keep r e h)) rows v.stocked)

  pub update-IsValid : IsValid (update_where (by_key (λ r. r.id) id c) f rows)
  update-IsValid = record {
    stocked = All-update_where IsStocked (by_key (λ r. r.id) id c) f keep rows v.stocked;
    keyed = Keyed-update (λ r. r.id) (by_key (λ r. r.id) id c) f same rows v.keyed;
  }

  -- What it does to the row of the id: without the row, or where the condition fails, it counts
  -- no row; otherwise it counts one, assigns that row and leaves the others.
  pub count-missing :
      find_key (λ r. r.id) id rows ≡ none → count_where (by_key (λ r. r.id) id c) rows ≡ 0
  count-missing = count-absent (λ r. r.id) id c f same rows

  pub count-found :
      (r : Product)
      → find_key (λ r. r.id) id rows ≡ some r
      → count_where (by_key (λ r. r.id) id c) rows ≡ (if c r then 1 else 0)
  count-found = count-by_key (λ r. r.id) id c f same rows v.keyed
