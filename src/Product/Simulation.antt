-- ===== src/Product/Simulation.antt =====
-- Sequences of stock statements, next to the same sequence on the map of products.
use mathlib.Core.Path.{fun_ext}
use golang_gin.Prelude.{ℕ, ◌≡◌, refl, ap, Bool, true, false, Option, none, some, List, [], ◌∷◌}
use golang_gin.Prelude.Int.{ℤ}
use golang_gin.Errors.{Result, ok, err}
use golang_gin.Product.{Table, reserve_stock, release_stock, confirm_stock}
use golang_gin.Product.Stock.{IsValid}
use golang_gin.Product.Inventory.{
  Inventory, view, Refines, reserve_spec, release_spec, confirm_spec, reserve_stock-Refines,
  release_stock-Refines, confirm_stock-Refines,
}

pub data Step : Type 0 where
  reserves releases confirms : ℕ → ℤ → Step

abbrev pub statement : Step → Table → Result Table
statement (reserves id q) rows = reserve_stock none id q rows
statement (releases id q) rows = release_stock none id q rows
statement (confirms id q) rows = confirm_stock none id q rows

abbrev pub operation : Step → Inventory → Option Inventory
operation (reserves id q) m = reserve_spec id q m
operation (releases id q) m = release_spec id q m
operation (confirms id q) m = confirm_spec id q m

-- Which steps succeed, and the end; a step that fails changes nothing.
abbrev pub tell {ℓ} : {A : Type ℓ} → Bool → List Bool × A → List Bool × A
tell b (bs, a) = (b ∷ bs, a)

abbrev went {ℓ} : {A : Type ℓ} → Result A → A → (A → List Bool × A) → List Bool × A
went (err e) old next = tell false (next old)
went (ok new) old next = tell true (next new)

abbrev moved {ℓ} : {A : Type ℓ} → Option A → A → (A → List Bool × A) → List Bool × A
moved none old next = tell false (next old)
moved (some new) old next = tell true (next new)

abbrev pub run : List Step → Table → List Bool × Table
run [] rows = ([], rows)
run (s ∷ ss) rows = went (statement s rows) rows (λ r. run ss r)

abbrev pub run_map : List Step → Inventory → List Bool × Inventory
run_map [] m = ([], m)
run_map (s ∷ ss) m = moved (operation s m) m (λ n. run_map ss n)

statement-Refines :
    (s : Step) (rows : Table) → IsValid rows → Refines (statement s rows) (operation s (view rows))
statement-Refines (reserves id q) rows v = reserve_stock-Refines id q rows v
statement-Refines (releases id q) rows v = release_stock-Refines id q rows v
statement-Refines (confirms id q) rows v = confirm_stock-Refines id q rows v

-- The table and the map, after the same steps.
abbrev pub Simulates : List Bool × Table → List Bool × Inventory → Type 0
Simulates (bs, rows) (cs, m) = (bs ≡ cs) × IsValid rows × (view rows ≡ m)

tell-Simulates :
    (b : Bool) (r : List Bool × Table) (i : List Bool × Inventory)
    → Simulates r i
    → Simulates (tell b r) (tell b i)
tell-Simulates b (bs, rows) (cs, m) (same, valid, is) = (ap (◌∷◌ b) same, valid, is)

step-Simulates :
    (ss : List Step) (rows : Table) (r : Result Table) (o : Option Inventory)
    → Refines r o
    → IsValid rows
    → ((rows' : Table) → IsValid rows' → Simulates (run ss rows') (run_map ss (view rows')))
    → Simulates (went r rows (λ x. run ss x)) (moved o (view rows) (λ n. run_map ss n))
step-Simulates ss rows (ok rows') (some m) (v', same) v rest =
    let is : view rows' ≡ m = fun_ext same in
    tell-Simulates true (run ss rows') (run_map ss m) (rw is at (rest rows' v'))
step-Simulates ss rows (err e) none kind v rest =
    tell-Simulates false (run ss rows) (run_map ss (view rows)) (rest rows v)
step-Simulates ss rows (ok rows') none h v rest = absurd h
step-Simulates ss rows (err e) (some m) h v rest = absurd h

-- On a valid table, every sequence of `ReserveStock`, `ReleaseStock` and `ConfirmStock` without a
-- fault does what the same sequence of the map's operations does: the same statements succeed, the
-- table stays valid, and in the end it stands for the map that the operations give. So a reservation
-- succeeds exactly if its quantity is positive and the product is active with that many items
-- available, and a release or a confirmation exactly if that many items are reserved; each changes
-- that product alone, and one that fails changes nothing.
pub run-Simulates :
    (ss : List Step) (rows : Table)
    → IsValid rows
    → Simulates (run ss rows) (run_map ss (view rows))
run-Simulates [] rows v = (refl, v, refl)
run-Simulates (s ∷ ss) rows v =
    step-Simulates ss rows (statement s rows) (operation s (view rows)) (statement-Refines s rows v)
      v (λ rows' v'. run-Simulates ss rows' v')
