-- ===== src/Tests/Payments.antt =====
-- The payment theorems, with a gateway that always gives an authority.
use golang_gin.Prelude.{◌≡◌, ◌≢◌, refl, true, none, some, List, [], ◌∷◌, All, arith}
use golang_gin.Prelude.Int.{pos}
use golang_gin.Errors.{GoError, Result, ok, err, foreign}
use golang_gin.Db.{committed}
use golang_gin.Payment.{Payment, pending, awaiting, irr}
use golang_gin.Payment.Marks.{fails, completes, expires, run, run-settled}
use golang_gin.Payment.Service.{World, OrderCreatedEnv, OrderCreated, CallbackEnv, verify_payment}
use golang_gin.Payment.Unlinked.{IsUnlinked}
use golang_gin.Payment.Callback.{Call, order_created, callback, run_calls, verify_payment-fails}
use golang_gin.Payment.Zarinpal as Zarinpal
use golang_gin.Payment.Zarinpal.{ZarinpalVerifyResponse, Response, Wire}
use golang_gin.Payment.Verdicts.{verdict, IsUnpaid, verify_payment-IsUnpaid}

abbrev at_gateway : Payment
at_gateway = record {
  id = 1;
  order_id = 9;
  user_id = 1;
  currency = irr;
  amount = pos 750;
  status = awaiting;
  gateway_name = some "zarinpal";
  gateway_ref_id = none;
  authority = some "A1";
  redirect_url = some "https://pay/A1";
  failure_reason = none;
}

waits : at_gateway.status ≢ pending
waits = ground arith

run-settled_example :
    run (completes "zarinpal" "R7" ∷ fails "timeout" ∷ expires ∷ []) at_gateway ≡ at_gateway
run-settled_example =
    run-settled (completes "zarinpal" "R7" ∷ fails "timeout" ∷ expires ∷ []) at_gateway waits

abbrev smooth : OrderCreatedEnv
smooth = record {
  fresh = 1;
  begin = none;
  mark = none;
  insert = none;
  commit = committed;
  request = ok ("A1", "https://pay/A1");
  update = none;
  broker = none;
}

abbrev order_event : OrderCreated
order_event = record { event_id = 5; order_id = 9; user_id = 1; total_amount = pos 750 }

abbrev good_callback : CallbackEnv
good_callback = record { select = none; verify = ok (true, "R7"); update = none; broker = none }

abbrev empty_world : World
empty_world = record { store = record { payments = []; processed = [] }; trace = [] }

abbrev some_calls : List Call
some_calls = order_created smooth (ok order_event) ∷ callback good_callback "A1" "OK" ∷ []

verify_payment-fails_example :
    All IsUnlinked (run_calls some_calls empty_world).store.payments
    × (e : GoError) × (verify_payment good_callback "A1" "OK" (run_calls some_calls empty_world)
        ≡ (run_calls some_calls empty_world, err e))
verify_payment-fails_example =
    verify_payment-fails some_calls empty_world tt good_callback "A1" "OK"

abbrev paid : ZarinpalVerifyResponse
paid = record { code = pos 100; text = "Paid"; ref_id = pos 201; card_pan = "" }

-- A body is the list of the JSON values in it.
abbrev decode_first {ℓ} : {A : Type ℓ} → A → List A → Result A
decode_first z [] = err (foreign "EOF")
decode_first z (r ∷ rs) = ok r

abbrev rest_of {ℓ} : {A : Type ℓ} → List A → List A
rest_of [] = []
rest_of (r ∷ rs) = rs

abbrev values : Wire (List ZarinpalVerifyResponse)
values = record {
  decode_request = λ z b. ok z;
  decode_verify = decode_first;
  rest = rest_of;
  number = λ n. "n";
}

abbrev answer : Result (Response (List ZarinpalVerifyResponse))
answer = ok (record { status_code = pos 200; body = paid ∷ [] })

abbrev linked_world : World
linked_world = record {
  store = record { payments = record at_gateway { status = pending } ∷ []; processed = [] };
  trace = [];
}

abbrev answered : CallbackEnv
answered = record good_callback { verify = verdict (Zarinpal.verify_payment values answer) }

verify_payment-IsUnpaid_example :
    ((x : GoError) × (Zarinpal.verify_payment values answer ≡ err x))
    × IsUnpaid answered "A1" linked_world (verify_payment answered "A1" "OK" linked_world).0
verify_payment-IsUnpaid_example =
    verify_payment-IsUnpaid values answer (λ z first z' h. (foreign "EOF", refl)) answered refl "A1"
      "OK" linked_world
