-- ===== src/Tests/Checkout.antt =====
-- `CreateOrder` with a product service of one product behind its client.
use Prim.Native.String.{count, ◌++◌ as str_append}
use text.Mathlib.Text.{◌==◌ as str_eq}
use text.Mathlib.TextLemmas.{length-append}
use golang_gin.Prelude.{
  ℕ, ◌+◌, zero, suc, ◌≡◌, refl, ap, String, true, Option, none, some, [], ◌∷◌, arith,
}
use golang_gin.Prelude.Int.{pos}
use golang_gin.Errors.{ok, err, foreign}
use golang_gin.Errors.Grpc.{no_status}
use golang_gin.Db.{committed, smooth}
use golang_gin.Rpc.{CallEnv, through, unreached}
use golang_gin.Product.{Product}
use golang_gin.Product.Stock.{IsValid}
use golang_gin.Product.Cached.{Deps}
use golang_gin.Order.Client.{Trip, Shop, shop}
use golang_gin.Order.Bookings.{IsHeard}
use golang_gin.Order.Saga.{ItemRequest, ProtoProduct}
use golang_gin.Order.Service.{World, OrderEnv, create_order}
use golang_gin.Prelude.Int.{◌+ℤ◌, ◌-ℤ◌}
use golang_gin.Errors.Grpc.{to_app_error}
use golang_gin.Rpc.{unanswered}
use golang_gin.Product
use golang_gin.Order.{OrderItem}
use golang_gin.Order.Saga.{reserve_items}
use golang_gin.Order.Compensation.{reservations, releases}
use golang_gin.Order.Checkout.{rows_of}
use golang_gin.Order.Lost.{reserve_items-unanswered}
use golang_gin.Order.Checkout.{IsSettled, create_order-IsSettled}

abbrev unary : ℕ → String
unary zero = ""
unary (suc n) = str_append "x" (unary n)

abbrev parse : String → Option ℕ
parse t = some (count t)

count-unary : (n : ℕ) → count (unary n) ≡ n
count-unary zero = refl
count-unary (suc n) =
    let more : count (str_append "x" (unary n)) ≡ 1 + count (unary n) =
      length-append "x" (unary n) in
    let same = count-unary n in omega arith

count-unary_some : (n : ℕ) → parse (unary n) ≡ some n
count-unary_some n = ap some (count-unary n)

abbrev deps : Deps
deps = record {
  product_json = record {
    marshal = λ p. err (foreign "unsupported value");
    unmarshal = λ t. err (foreign "invalid character");
  };
  search_json = record {
    marshal = λ p. err (foreign "unsupported value");
    unmarshal = λ t. err (foreign "invalid character");
  };
  format = unary;
  itoa = λ n. "n";
  texts = record { ilike = str_eq; order = λ query rows. rows };
  product_ttl = 100;
  search_ttl = 10;
}

abbrev pen : Product
pen = record {
  id = 1;
  name = "pen";
  description = "blue";
  category = "paper";
  price = pos 5;
  total_stock = pos 10;
  reserved_stock = pos 0;
  is_active = true;
}

abbrev call_env : CallEnv
call_env = record {
  allow = λ key limit. ok 1;
  caller = "order-service";
  tokens = λ token. err (foreign "no token");
  details_ok = true;
}

-- The first call arrives, the others do not.
abbrev trips : ℕ → Trip
trips zero = record { link = through; env = call_env; exec = none; del = none }
trips (suc n) = record {
  link = unreached (no_status (foreign "connection refused"));
  env = call_env;
  exec = none;
  del = none;
}

trips-IsHeard : (k : ℕ) → IsHeard (trips k).link
trips-IsHeard zero = tt
trips-IsHeard (suc k) = tt

abbrev proto_pen : ProtoProduct
proto_pen = record { id = "x"; name = "pen"; price = pos 5; is_active = true }

abbrev env : OrderEnv
env = record {
  insert = record {
    begin = none;
    insert_order = none;
    insert_items = none;
    returned = smooth;
    reports_late = true;
    commit = committed;
    fresh = 9;
  };
  update = none;
}

abbrev two_pens : Option ItemRequest
two_pens = some (record { product_id = "x"; quantity = pos 2 })

abbrev start : World Shop
start = record {
  net = record {
    stock = record { world = record { rows = pen ∷ []; redis = [] }; asked = 0 };
    tries = 0;
    trace = [];
  };
  orders = [];
}

pen-IsValid : IsValid (pen ∷ [])
pen-IsValid = ground arith

-- The second item cannot be reserved, and the first is to be released.
create_order-IsSettled_example :
    IsSettled
      (λ t. "status")
      deps
      parse
      unary
      trips
      (λ ids s. ok (proto_pen ∷ []))
      (λ n. n + 100)
      (λ n. none)
      count-unary_some
      trips-IsHeard
      start.net
      (create_order
        (shop
          (λ t. "status")
          deps
          parse
          unary
          trips
          (λ ids s. ok (proto_pen ∷ []))
          (λ n. n + 100)
          (λ n. none))
        env
        (some (record { user_id = "x"; role = "member" }))
        (some (two_pens ∷ two_pens ∷ []))
        start)
create_order-IsSettled_example =
    create_order-IsSettled (λ t. "status") deps parse unary trips (λ ids s. ok (proto_pen ∷ []))
      (λ n. n + 100) (λ n. none) count-unary_some trips-IsHeard env
      (some (record { user_id = "x"; role = "member" })) (some (two_pens ∷ two_pens ∷ [])) start
      pen-IsValid

abbrev lost_trips : ℕ → Trip
lost_trips n = record {
  link = unanswered (no_status (foreign "deadline exceeded"));
  env = call_env;
  exec = none;
  del = none;
}

abbrev pens : OrderItem
pens = record {
  order_id = 0;
  product_id = 1;
  product_name = "pen";
  unit_price = pos 5;
  quantity = pos 2;
  subtotal = pos 10;
}

reserve_items-unanswered_example :
    let out =
      shop
        (λ t. "status")
        deps
        parse
        unary
        lost_trips
        (λ ids s. ok [])
        (λ n. n + 100)
        (λ n. none) in
    let (n', r) = reserve_items out [] (pens ∷ []) start.net in
    (r ≡ err (to_app_error (λ t. "status") (no_status (foreign "deadline exceeded"))))
    × (rows_of n' ≡ record pen { reserved_stock = pos 2 } ∷ [])
    × (reservations n'.trace ≡ [])
    × (releases n'.trace ≡ [])
unfolding Product.reserve_stock ◌+ℤ◌ ◌-ℤ◌
reserve_items-unanswered_example =
    reserve_items-unanswered (λ t. "status") deps parse unary lost_trips (λ ids s. ok [])
      (λ n. n + 100) (λ n. none) [] [] pens start.net (record pen { reserved_stock = pos 2 } ∷ [])
      (no_status (foreign "deadline exceeded")) (count-unary_some 1) refl refl
