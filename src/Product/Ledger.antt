-- ===== src/Product/Ledger.antt =====
-- Any sequence of the repository's writes: the invariant of the table, and the books of one product.
use golang_gin.Prelude.{
  ℕ, ◌≡◌, refl, Bool, true, false, ◌&&◌, Option, none, some, List, [], ◌∷◌, ◌==◌, Bool-cases, inl,
  inr, arith,
}
use golang_gin.Prelude.Int.{ℤ, pos, leb_ℤ}
use golang_gin.Errors.{Result, ok, err, Fault}
use golang_gin.Db.{update_where, exec_update, exec_insert}
use golang_gin.Db.Laws.{All-update_where, Keyed-update}
use golang_gin.Product.{
  Product, Table, validate, row_checks, inserted, edited, create, update, delete, reserve_stock,
  release_stock, confirm_stock,
}
use golang_gin.Product.Stock.{IsStocked, IsValid}
use golang_gin.Product.Inventory.{
  Inventory, view, Refines, reserve_spec, release_spec, confirm_spec, reserve_stock-Refines,
  release_stock-Refines, confirm_stock-Refines,
}

-- The writes of the repository, each with its fault.
pub data Write : Type 0 where
  creation : Fault → ℕ → Option Product → Write
  edition : Fault → Option Product → Write
  deletion : Fault → ℕ → Write
  reservation release confirmation : Fault → ℕ → ℤ → Write

-- The table that a `Create` leaves.
abbrev pub created : Result (Table × Product) → Result Table
created (err e) = err e
created (ok (rows, p)) = ok rows

unfoldable pub apply : Write → Table → Result Table
apply (creation fault fresh p) rows = created (create fault fresh p rows)
apply (edition fault p) rows = update fault p rows
apply (deletion fault id) rows = delete fault id rows
apply (reservation fault id q) rows = reserve_stock fault id q rows
apply (release fault id q) rows = release_stock fault id q rows
apply (confirmation fault id q) rows = confirm_stock fault id q rows

-- A write that reports an error leaves the table as it was.
abbrev pub after : Result Table → Table → Table
after (ok rows') rows = rows'
after (err e) rows = rows

abbrev pub run : List Write → Table → Table
run [] rows = rows
run (w ∷ ws) rows = run ws (after (apply w rows) rows)

-- What a result holds, if it is no error.
abbrev pub OfOk : (Table → Type 0) → Result Table → Type 0
OfOk P (ok rows) = P rows
OfOk P (err e) = Unit

row_checks→IsStocked : (r : Product) → row_checks r ≡ true → IsStocked r
unfolding row_checks
row_checks→IsStocked r h = ground arith

module _ (p : Product → Bool) (f : Product → Product) (same : (r : Product) → (f r).id ≡ r.id)
    (keep : (r : Product) → p r ≡ true → IsStocked r → IsStocked (f r)) (rows : Table)
    (v : IsValid rows) where
  update_where-IsValid : IsValid (update_where p f rows)
  update_where-IsValid = record {
    stocked = All-update_where IsStocked p f keep rows v.stocked;
    keyed = Keyed-update (λ r. r.id) p f same rows v.keyed;
  }

edited-IsStocked :
    (p : Product)
    → leb_ℤ (pos 0) p.price ≡ true
    → (r : Product) → IsStocked r
    → IsStocked (edited p r)
edited-IsStocked p h r s = ground arith

create-IsValid :
    (fault : Fault) (fresh : ℕ) (p : Product) (rows : Table)
    → IsValid rows
    → OfOk IsValid (created (create fault fresh (some p) rows))
unfolding create exec_insert
create-IsValid fault fresh p rows v = ground (arith, row_checks→IsStocked (inserted fresh p))

update-IsValid :
    (fault : Fault) (p : Product) (rows : Table)
    → IsValid rows
    → OfOk IsValid (update fault (some p) rows)
unfolding update exec_update validate
update-IsValid fault p rows v = elim (Bool-cases (leb_ℤ (pos 0) p.price)) [
  | inl h ↦ ground (
    arith,
    update_where-IsValid (λ (r : Product). r.id == p.id) (edited p) (λ r. refl)
        (λ r e s. edited-IsStocked p h r s) rows v,
  )
  | inr h ↦ ground arith
]

delete-IsValid :
    (fault : Fault) (id : ℕ) (rows : Table) → IsValid rows → OfOk IsValid (delete fault id rows)
unfolding delete exec_update
delete-IsValid fault id rows v = ground (
  arith,
  update_where-IsValid (λ (r : Product). (r.id == id) && r.is_active)
      (λ (r : Product). record r { is_active = false }) (λ r. refl)
      (λ r e s. record {
        priced = s.priced;
        reserved_nonneg = s.reserved_nonneg;
        within = s.within;
        bounded = s.bounded;
      })
      rows v,
)

refined-IsValid :
    (result : Result Table) (spec : Option Inventory) → Refines result spec → OfOk IsValid result
refined-IsValid (ok rows) (some m) h = h.0
refined-IsValid (ok rows) none h = absurd h
refined-IsValid (err e) spec h = tt

apply-IsValid : (w : Write) (rows : Table) → IsValid rows → OfOk IsValid (apply w rows)
unfolding apply create update reserve_stock release_stock confirm_stock exec_update
apply-IsValid (creation fault fresh none) rows v = tt
apply-IsValid (creation fault fresh (some p)) rows v = create-IsValid fault fresh p rows v
apply-IsValid (edition fault none) rows v = tt
apply-IsValid (edition fault (some p)) rows v = update-IsValid fault p rows v
apply-IsValid (deletion fault id) rows v = delete-IsValid fault id rows v
apply-IsValid (reservation none id q) rows v =
    refined-IsValid _ (reserve_spec id q (view rows)) (reserve_stock-Refines id q rows v)
apply-IsValid (reservation (some e) id q) rows v = ground arith
apply-IsValid (release none id q) rows v =
    refined-IsValid _ (release_spec id q (view rows)) (release_stock-Refines id q rows v)
apply-IsValid (release (some e) id q) rows v = ground arith
apply-IsValid (confirmation none id q) rows v =
    refined-IsValid _ (confirm_spec id q (view rows)) (confirm_stock-Refines id q rows v)
apply-IsValid (confirmation (some e) id q) rows v = ground arith

pub step-IsValid : (w : Write) (rows : Table) → IsValid rows → IsValid (after (apply w rows) rows)
step-IsValid w rows v = go (apply w rows) (apply-IsValid w rows v)
  where
    go : (result : Result Table) → OfOk IsValid result → IsValid (after result rows)
    go (ok rows') h = h
    go (err e) h = v

-- Every sequence of writes, whichever of them fail, keeps the table valid: prices and stocks are
-- never negative, no product has more reserved than it has, no total leaves the range of its
-- column, and no id occurs twice.
pub run-IsValid : (ws : List Write) (rows : Table) → IsValid rows → IsValid (run ws rows)
run-IsValid [] rows v = v
run-IsValid (w ∷ ws) rows v = run-IsValid ws (after (apply w rows) rows) (step-IsValid w rows v)
