-- ===== src/Tests/Stock.antt =====
-- The stock theorems on a table of two products and a run of writes and deliveries.
use golang_gin.Prelude.{◌≡◌, refl, true, none, some, List, [], ◌∷◌, All, arith}
use golang_gin.Prelude.Int.{pos, ◌≤ℤ◌}
use golang_gin.Errors.{internal, new, ok, err}
use golang_gin.Db.{committed, lost}
use golang_gin.Product.{Product, Table}
use golang_gin.Product.Stock.{IsValid}
use golang_gin.Product.Inventory.{view}
use golang_gin.Product.Simulation
use golang_gin.Product.Simulation.{
  Step, reserves, releases, confirms, run_map, Simulates, run-Simulates,
}
use golang_gin.Product.Ledger.{
  Write, reservation, release, confirmation, deletion, run, run-IsValid,
}
use golang_gin.Product.Entries.{IsBooked, total_of, reserved_by, released_by, sold_by}
use golang_gin.Product.Books.{run-IsBooked, sold-le-total}
use golang_gin.Product.Consumer.{StockEvent, Surroundings, World}
use golang_gin.Product.Delivery.{
  Queue, confirm_queue, release_queue, Delivery, deliver, Applied, Recorded, acknowledged, handle,
  calm, Progresses,
}
use golang_gin.Product.Once.{IsDelivered, IsFresh, IsLogged, deliver_once}

abbrev widget : Product
widget = record {
  id = 1;
  name = "widget";
  description = "";
  category = "tools";
  price = pos 250;
  total_stock = pos 10;
  reserved_stock = pos 3;
  is_active = true;
}

abbrev gadget : Product
gadget = record {
  id = 2;
  name = "gadget";
  description = "";
  category = "tools";
  price = pos 900;
  total_stock = pos 1;
  reserved_stock = pos 0;
  is_active = true;
}

abbrev two_products : Table
two_products = widget ∷ gadget ∷ []

two_products-IsValid : IsValid two_products
two_products-IsValid = ground arith

-- A reservation too large, and more confirmed than is reserved.
abbrev some_steps : List Step
some_steps =
    reserves 1 (pos 4)
    ∷ reserves 1 (pos 40)
    ∷ releases 1 (pos 2)
    ∷ confirms 1 (pos 50)
    ∷ confirms 1 (pos 1)
    ∷ []

run-Simulates_example :
    Simulates (Simulation.run some_steps two_products) (run_map some_steps (view two_products))
run-Simulates_example = run-Simulates some_steps two_products two_products-IsValid

-- A sale with a reservation too large, a fault and a deletion in between.
abbrev some_writes : List Write
some_writes =
    reservation none 1 (pos 4)
    ∷ reservation none 1 (pos 40)
    ∷ confirmation none 1 (pos 5)
    ∷ release (some (new internal "connection reset")) 1 (pos 2)
    ∷ release none 1 (pos 2)
    ∷ deletion none 2
    ∷ []

run-IsValid_example : IsValid (run some_writes two_products)
run-IsValid_example = run-IsValid some_writes two_products two_products-IsValid

run-IsBooked_example :
    (r : Product) × (view (run some_writes two_products) 1 ≡ some r)
    × IsBooked
        (total_of (reserved_by 1) some_writes two_products)
        (total_of (released_by 1) some_writes two_products)
        (total_of (sold_by 1) some_writes two_products)
        widget
        r
run-IsBooked_example = run-IsBooked some_writes 1 two_products widget two_products-IsValid refl

sold-le-total_example : total_of (sold_by 1) some_writes two_products ≤ℤ pos 10
sold-le-total_example = sold-le-total some_writes 1 two_products widget two_products-IsValid refl

abbrev sound : Surroundings
sound = record { begin = none; mark = none; stock = none; commit = committed; cache = none }

-- The commit happens, but its answer does not arrive.
abbrev unanswered : Surroundings
unanswered = record {
  begin = none;
  mark = none;
  stock = none;
  commit = lost (new internal "connection reset");
  cache = none;
}

abbrev sale : StockEvent
sale = record { event_id = 77; order_id = 5; product_id = 1; quantity = pos 2 }

abbrev some_deliveries : List Delivery
some_deliveries =
    (record { queue = confirm_queue; env = unanswered; body = ok sale })
    ∷ (record { queue = confirm_queue; env = sound; body = ok sale })
    ∷ (record { queue = release_queue; env = sound; body = err (new internal "bad body") })
    ∷ []

abbrev before : World
before = record { store = record { products = two_products; processed = [] }; cached = widget ∷ [] }

deliver_once_example :
    (log : List (Queue × StockEvent)) × Applied before.store log
      (deliver some_deliveries before).store
    × All (IsDelivered some_deliveries) log
    × IsFresh before.store log
    × All
        (λ x. Recorded (deliver some_deliveries before).store x.event_id)
        (acknowledged some_deliveries before)
    × All (λ x. IsLogged before.store log x.event_id) (acknowledged some_deliveries before)
    × Progresses release_queue sale
        (deliver some_deliveries before).store
        (handle release_queue (calm none) (ok sale) (deliver some_deliveries before)).1
deliver_once_example = deliver_once some_deliveries before release_queue sale none
