-- ===== src/Product/Inventory.antt =====
-- The abstract stock: a map from ids to products, with three partial operations. The repository's
-- statements refine them, and every sequence of statements keeps the table valid.
use golang_gin.Prelude.{
  ℕ, ◌≡◌, refl, Bool, true, ◌&&◌, Option, none, some, if◌then◌else◌, ◌==◌, ==_iff, Bool-cases, inl,
  inr, String,
}
use golang_gin.Prelude.Int.{ℤ, pos, ◌-ℤ◌, leb_ℤ, ltb_ℤ}
use golang_gin.Errors.{invalid_input, new, Result, ok, err, get_kind}
use golang_gin.Db.{update_where, count_where, exec_update}
use golang_gin.Db.Laws.{find_key, by_key, find_key-update_ne, find_key-update}
use golang_gin.Product.{
  Product, Table, row_checks, check_violation, affected, holds, reserve_row, release_row,
  confirm_row, reserve_stock, release_stock, confirm_stock,
}
use golang_gin.Product.Stock.{
  IsStocked, IsValid, reserve_row-IsStocked, release_row-IsStocked, confirm_row-IsStocked,
  exec_update-checked, update-IsValid, count-missing, count-found,
}

abbrev pub Inventory : Type 0
Inventory = ℕ → Option Product

-- The table as a map.
abbrev pub view : Table → Inventory
view rows id = find_key (λ r. r.id) id rows

-- Change the product of an id where the condition holds of it; undefined otherwise.
abbrev pub change_row :
    Option Product → ℕ → (Product → Bool) → (Product → Product) → Inventory → Option Inventory
change_row none id c f m = none
change_row (some r) id c f m = if c r then some (λ j. if j == id then some (f r) else m j) else none

abbrev pub change : ℕ → (Product → Bool) → (Product → Product) → Inventory → Option Inventory
change id c f m = change_row (m id) id c f m

-- Reserve `q` items of an active product that has as many available.
unfoldable pub reserve_spec : ℕ → ℤ → Inventory → Option Inventory
reserve_spec id q m =
    if ltb_ℤ (pos 0) q
    then change id (λ r. r.is_active && leb_ℤ q (r.total_stock -ℤ r.reserved_stock)) (reserve_row q)
        m
    else none

-- Give back `q` reserved items.
unfoldable pub release_spec : ℕ → ℤ → Inventory → Option Inventory
release_spec id q m =
    if ltb_ℤ (pos 0) q then change id (λ r. leb_ℤ q r.reserved_stock) (release_row q) m else none

-- Take `q` reserved items out of the stock.
unfoldable pub confirm_spec : ℕ → ℤ → Inventory → Option Inventory
confirm_spec id q m =
    if ltb_ℤ (pos 0) q then change id (λ r. leb_ℤ q r.reserved_stock) (confirm_row q) m else none

-- A statement succeeds exactly where the map's operation is defined, with a valid table that
-- stands for the new map; otherwise it reports invalid input.
abbrev pub Refines : Result Table → Option Inventory → Type 0
Refines (ok rows) (some m) = IsValid rows × ((j : ℕ) → view rows j ≡ m j)
Refines (err e) none = get_kind e ≡ invalid_input
Refines _ _ = ⊥

module _ (id : ℕ) (c : Product → Bool) (f : Product → Product)
    (same : (r : Product) → (f r).id ≡ r.id)
    (keep : (r : Product) → by_key (λ r. r.id) id c r ≡ true → IsStocked r → IsStocked (f r))
    (rows : Table) (v : IsValid rows) (text : String) (why : String) where
  changed :
      (r : Product)
      → view rows id ≡ some r
      → c r ≡ true
      → (j : ℕ)
      → view (update_where (by_key (λ r. r.id) id c) f rows) j
        ≡ (if j == id then some (f r) else view rows j)
  changed r found holds j = elim (Bool-cases (j == id)) [
    | inl e ↦
        let here = find_key-update (λ r. r.id) id c f same rows v.keyed r found in
        rw (e, (==_iff j id).0 e) (rw holds at here)
    | inr e ↦ rw e (find_key-update_ne (λ r. r.id) id c f same j e rows)
  ]

  statement-Refines :
      Refines
        (affected
          (exec_update check_violation row_checks none (by_key (λ r. r.id) id c) f rows)
          text
          (new invalid_input why))
        (change id c f (view rows))
  unfolding get_kind
  statement-Refines = rw (exec_update-checked id c f same keep rows v) (go (view rows id) refl)
    where
      go :
          (o : Option Product)
          → view rows id ≡ o
          → Refines
              (affected
                (ok (
                  update_where (by_key (λ r. r.id) id c) f rows,
                  count_where (by_key (λ r. r.id) id c) rows,
                ))
                text
                (new invalid_input why))
              (change_row o id c f (view rows))
      go none e = rw (count-missing id c f same keep rows v e) refl
      go (some r) e = elim (Bool-cases (c r)) [
        | inl t ↦
            rw (count-found id c f same keep rows v r e, t)
              (update-IsValid id c f same keep rows v, changed r e t)
        | inr t ↦ rw (count-found id c f same keep rows v r e, t) refl
      ]

-- On a valid table and without a fault, `ReserveStock` refines the map's reservation: it succeeds
-- exactly if the quantity is positive and the product exists, is active and has that many items
-- available; then the table stays valid, the reserved stock of that product alone grows by the
-- quantity, and in every other case the error is one of invalid input. No constraint of the
-- database stops it.
pub reserve_stock-Refines :
    (id : ℕ) (q : ℤ) (rows : Table)
    → IsValid rows
    → Refines (reserve_stock none id q rows) (reserve_spec id q (view rows))
unfolding reserve_stock reserve_spec get_kind
reserve_stock-Refines id q rows v = elim (Bool-cases (ltb_ℤ (pos 0) q)) [
  | inl h ↦ rw h (
      statement-Refines id (λ r. r.is_active && leb_ℤ q (r.total_stock -ℤ r.reserved_stock))
        (reserve_row q) (λ r. refl) (reserve_row-IsStocked id q h) rows v "failed to reserve stock"
        "insufficient stock or product not available")
  | inr h ↦ rw h refl
]

-- On a valid table and without a fault, `ReleaseStock` refines the map's release: it succeeds
-- exactly if the quantity is positive and that many items of the product are reserved; then the
-- table stays valid and that product alone gives them back, and in every other case the error is
-- one of invalid input.
pub release_stock-Refines :
    (id : ℕ) (q : ℤ) (rows : Table)
    → IsValid rows
    → Refines (release_stock none id q rows) (release_spec id q (view rows))
unfolding release_stock release_spec get_kind
release_stock-Refines id q rows v = elim (Bool-cases (ltb_ℤ (pos 0) q)) [
  | inl h ↦ rw h (
      statement-Refines id (λ r. leb_ℤ q r.reserved_stock) (release_row q) (λ r. refl)
        (release_row-IsStocked id q h) rows v "failed to release stock"
        "cannot release more stock than reserved")
  | inr h ↦ rw h refl
]

-- On a valid table and without a fault, `ConfirmStock` refines the map's confirmation: it succeeds
-- exactly if the quantity is positive and that many items of the product are reserved; then the
-- table stays valid and the total and the reserved stock of that product alone fall by the
-- quantity, and in every other case the error is one of invalid input.
pub confirm_stock-Refines :
    (id : ℕ) (q : ℤ) (rows : Table)
    → IsValid rows
    → Refines (confirm_stock none id q rows) (confirm_spec id q (view rows))
unfolding confirm_stock confirm_spec get_kind
confirm_stock-Refines id q rows v = elim (Bool-cases (ltb_ℤ (pos 0) q)) [
  | inl h ↦ rw h (
      statement-Refines id (λ r. leb_ℤ q r.reserved_stock) (confirm_row q) (λ r. refl)
        (confirm_row-IsStocked id q h) rows v "failed to confirm stock"
        "cannot confirm more stock than reserved")
  | inr h ↦ rw h refl
]
