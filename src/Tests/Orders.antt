-- ===== src/Tests/Orders.antt =====
-- The order theorems, with a product service of two products and a broker that fails at times.
use text.Mathlib.Text.{◌==◌ as str_eq}
use golang_gin.Prelude.{
  All, ◌≡◌, map, zero, suc, ◌≢◌, refl, ℕ, ◌+◌, true, Option, none, some, List, [], ◌∷◌,
  if◌then◌else◌, ◌==◌, String, arith,
}
use golang_gin.Prelude.Int.{pos, ◌+ℤ◌, ◌*ℤ◌}
use golang_gin.Prelude.Words.{wrap64}
use golang_gin.Errors.{Result, ok, err, internal, invalid_input, new}
use golang_gin.Db.{committed, smooth}
use golang_gin.Order.{OrderItem, Order, pending, cancelled, confirmed, validate}
use golang_gin.Order.Table.{CreateEnv, update_status}
use golang_gin.Order.Saga.{
  build_order_items, stock_confirm, stock_release, AccessClaims, ItemRequest, ProtoProduct, Outside,
}
use golang_gin.Order.Service.{World, OrderEnv, new_order, create_order}
use golang_gin.Order.Acceptance.{Answered, create_order-Answered}
use golang_gin.Order.Items.{IsSold, build_order_items-IsPriced}
use mathlib.Core.Path.{subst}
use golang_gin.Order.Totals.{exact, IsPriced, new_order-exact, validate-new_order}
use golang_gin.Order.Consumer.{handle_payment_succeeded, handle_payment_failed}
use golang_gin.Order.Settlement.{
  announced, Settled, handle_payment_succeeded-Settled, handle_payment_failed-Settled,
}
use golang_gin.Order.Redelivery.{sound, handle_payment-returns, handle_payment_succeeded-again}
use golang_gin.Order.Status.{Updated, update_status-Updated}

abbrev parse_digit : String → Option ℕ
parse_digit t = if str_eq t "1" then some 1 else (if str_eq t "2" then some 2 else none)

abbrev digit : ℕ → String
digit n = if n == 1 then "1" else "2"

abbrev hammer : ProtoProduct
hammer = record { id = "1"; name = "hammer"; price = pos 250; is_active = true }

abbrev saw : ProtoProduct
saw = record { id = "2"; name = "saw"; price = pos 900; is_active = true }

-- The stock of the saw is the state; there is no end of hammers.
abbrev take_saw : ℕ → ℕ × Result (Unit {0})
take_saw zero = (0, err (new invalid_input "insufficient stock or product not available"))
take_saw (suc n) = (n, ok tt)

abbrev shop : Outside ℕ
shop = record {
  parse = parse_digit;
  format = digit;
  get_products_by_ids = λ ids s. ok (hammer ∷ saw ∷ []);
  reserve_stock = λ id q s. if str_eq id "2" then take_saw s else (s, ok tt);
  event_id = λ n. n + 100;
  broker = λ n. if n == 1 then some (new internal "channel closed") else none;
}

abbrev smooth_create : CreateEnv
smooth_create = record {
  begin = none;
  insert_order = none;
  insert_items = none;
  returned = smooth;
  reports_late = true;
  commit = committed;
  fresh = 9;
}

abbrev env : OrderEnv
env = record { insert = smooth_create; update = none }

abbrev buyer : Option AccessClaims
buyer = some (record { user_id = "1"; role = "user" })

abbrev basket : Option (List (Option ItemRequest))
basket = some (
    some (record { product_id = "1"; quantity = pos 3 })
    ∷ some (record { product_id = "2"; quantity = pos 1 })
    ∷ [])

abbrev no_saw : World ℕ
no_saw = record { net = record { stock = 0; tries = 0; trace = [] }; orders = [] }

create_order-Answered_example :
    Answered shop no_saw.net no_saw.orders (create_order shop env buyer basket no_saw)
create_order-Answered_example = create_order-Answered shop env buyer basket no_saw

abbrev three_hammers : OrderItem
three_hammers = record {
  order_id = 0;
  product_id = 1;
  product_name = "hammer";
  unit_price = pos 250;
  quantity = pos 3;
  subtotal = pos 750;
}

three_hammers-IsPriced : IsPriced three_hammers
unfolding wrap64 ◌*ℤ◌
three_hammers-IsPriced = ground arith

new_order-exact_example :
    (new_order shop 1 (three_hammers ∷ [])).total_amount ≡ exact (three_hammers ∷ [])
unfolding ◌+ℤ◌ ◌*ℤ◌
new_order-exact_example =
    new_order-exact shop 1 (three_hammers ∷ []) (three_hammers-IsPriced, tt) (omega arith)

filled : three_hammers ∷ [] ≢ []
filled = ground arith

validate-new_order_example :
    validate (new_order shop 1 (three_hammers ∷ [])) ≡ ok (new_order shop 1 (three_hammers ∷ []))
validate-new_order_example =
    validate-new_order shop 1 (three_hammers ∷ []) filled (three_hammers-IsPriced, tt)

abbrev open_order : Order
open_order = record {
  id = 9;
  user_id = 1;
  status = pending;
  total_amount = pos 750;
  items = three_hammers ∷ [];
}

update_status-Updated_example :
    Updated 9 cancelled (open_order ∷ []) (update_status none 9 cancelled (open_order ∷ []))
update_status-Updated_example = update_status-Updated 9 cancelled (open_order ∷ []) (refl, tt)

-- A broker that never fails.
abbrev calm : Outside ℕ
calm = record {
  parse = parse_digit;
  format = digit;
  get_products_by_ids = λ ids s. ok (hammer ∷ saw ∷ []);
  reserve_stock = λ id q s. (s, ok tt);
  event_id = λ n. n + 100;
  broker = λ n. none;
}

abbrev never : (n : ℕ) → calm.broker n ≡ none
never n = refl

-- An order that waits for its payment, and one that was cancelled before.
abbrev waiting : World ℕ
waiting = record { net = record { stock = 0; tries = 0; trace = [] }; orders = open_order ∷ [] }

abbrev cancelled_order : Order
cancelled_order = record open_order { status = cancelled }

abbrev late : World ℕ
late = record waiting { orders = cancelled_order ∷ [] }

handle_payment_succeeded-Settled_example :
    Settled calm confirmed
      (λ o i. stock_confirm o.id i.product_id i.quantity)
      9
      waiting
      (handle_payment_succeeded calm sound 9 waiting)
handle_payment_succeeded-Settled_example =
    handle_payment_succeeded-Settled calm sound 9 waiting (refl, tt)

handle_payment_failed-Settled_example :
    Settled calm cancelled
      (λ o i. stock_release i.product_id i.quantity "payment_failed")
      9
      waiting
      (handle_payment_failed calm sound 9 waiting)
handle_payment_failed-Settled_example =
    handle_payment_failed-Settled calm sound 9 waiting (refl, tt)

handle_payment-returns_example :
    ((handle_payment_succeeded calm sound 9 waiting).1 ≡ ok tt)
    × ((handle_payment_failed calm sound 9 waiting).1 ≡ ok tt)
handle_payment-returns_example =
    handle_payment-returns calm never 9 waiting (refl, tt) open_order refl

handle_payment_succeeded-again_example :
    ((handle_payment_succeeded calm sound 9 late).1 ≡ ok tt)
    × ((handle_payment_succeeded calm sound 9 late).0.net.trace
        ≡ announced calm 0
            (map (λ i. stock_confirm 9 i.product_id i.quantity) (three_hammers ∷ []))
            [])
handle_payment_succeeded-again_example =
    handle_payment_succeeded-again calm never 9 late (refl, tt) cancelled_order refl refl

calm_prices :
    (ids : List String) (s : ℕ) (ps : List ProtoProduct)
    → calm.get_products_by_ids ids s ≡ ok ps
    → All IsSold ps
calm_prices ids s ps h =
    let is : hammer ∷ saw ∷ [] ≡ ps = ground arith in
    subst (All IsSold) is (omega arith, (omega arith, tt))

abbrev hammers_only : List (Option ItemRequest)
hammers_only = some (record { product_id = "1"; quantity = pos 3 }) ∷ []

hammers_built : build_order_items calm hammers_only 0 ≡ ok (three_hammers ∷ [])
unfolding build_order_items wrap64 ◌*ℤ◌
hammers_built = refl

build_order_items-IsPriced_example : All IsPriced (three_hammers ∷ [])
build_order_items-IsPriced_example =
    build_order_items-IsPriced calm calm_prices hammers_only 0 (three_hammers ∷ []) hammers_built
