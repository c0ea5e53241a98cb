-- ===== src/Payment/Zarinpal.antt =====
-- services/payment-service/internal/client: the answers of the gateway. Its HTTP client and the JSON
-- decoder are parameters.
use Prim.Native.String.{◌++◌ as str_append}
use golang_gin.Prelude.{◌≡◌, refl, String, Bool, true, ◌&&◌, ◌||◌, Bool-cases, inl, inr}
use golang_gin.Prelude.Int.{ℤ, pos, leb_ℤ, ltb_ℤ, eqb_ℤ}
use golang_gin.Errors.{
  invalid_input, internal, GoError, new, caused, Result, ok, err, ◌>>=◌, ◌>>◌, guard, Result-cases,
}

-- The two answers, as far as they are read.
pub record ZarinpalReqResponse : Type 0 where
  pub code : ℤ
  pub text : String
  pub authority : String

pub record ZarinpalVerifyResponse : Type 0 where
  pub code : ℤ
  pub text : String
  pub ref_id : ℤ
  pub card_pan : String

pub record PaymentRequestOutput : Type 0 where
  pub authority : String
  pub redirect_url : String

pub record PaymentVerifyOutput : Type 0 where
  pub ref_id : String
  pub success : Bool
  pub card_pan : String

-- `http.Response`: its status code, and what is left of its body.
pub record Response (B : Type 0) : Type 0 where
  pub status_code : ℤ
  pub body : B

-- Bodies `B`: a decoder that is made anew reads a value into a variable, or reports why it cannot,
-- and leaves the rest. Numbers as texts.
pub record Wire (B : Type 0) : Type 0 where
  pub decode_request : ZarinpalReqResponse → B → Result ZarinpalReqResponse
  pub decode_verify : ZarinpalVerifyResponse → B → Result ZarinpalVerifyResponse
  pub rest : B → B
  pub number : ℤ → String

module _ {B : Type 0} (wire : Wire B) where
  -- `resp.StatusCode < http.StatusOK || resp.StatusCode >= http.StatusMultipleChoices`
  abbrev check_status : ℤ → Result (Unit {0})
  check_status s =
      guard (leb_ℤ (pos 200) s && ltb_ℤ s (pos 300)) internal
        (str_append "zarinpal returned unexpected HTTP status " (wire.number s))

  abbrev decoded {ℓ} : {A : Type ℓ} → String → Result A → Result A
  decoded text (ok reply) = ok reply
  decoded text (err e) = err (caused internal text e)

  -- `RequestPayment` from the outcome of `httpClient.Do` on.
  unfoldable pub request_payment : String → Result (Response B) → Result PaymentRequestOutput
  request_payment start_pay_url (err e) = err (caused internal "zarinpal gateway request failed" e)
  request_payment start_pay_url (ok resp) = do
    check_status resp.status_code
    reply ←
        decoded "failed to decode zarinpal response"
          (wire.decode_request (record { code = pos 0; text = ""; authority = "" }) resp.body)
    guard (eqb_ℤ reply.code (pos 100)) internal (
        str_append "zarinpal error code "
          (str_append (wire.number reply.code) (str_append ": " reply.text)))
    ok (record {
      authority = reply.authority;
      redirect_url = str_append start_pay_url (str_append "/" reply.authority);
    })

  -- `VerifyPayment` from there on. It decodes the body, checks the status, and decodes the rest of
  -- the body into the same variable. The output next to an error, which has `success` unset, is
  -- left out.
  unfoldable pub verify_payment : Result (Response B) → Result PaymentVerifyOutput
  verify_payment (err e) = err (caused internal "zarinpal verify request failed" e)
  verify_payment (ok resp) = do
    first ← decoded "failed to decode zarinpal verify response" (
        wire.decode_verify (record { code = pos 0; text = ""; ref_id = pos 0; card_pan = "" })
          resp.body)
    check_status resp.status_code
    reply ←
        decoded "failed to decode zarinpal verify response"
          (wire.decode_verify first (wire.rest resp.body))
    guard ((eqb_ℤ reply.code (pos 100)) || (eqb_ℤ reply.code (pos 101))) invalid_input (
        str_append "payment verification failed with code "
          (str_append (wire.number reply.code) (str_append ": " reply.text)))
    ok (record { ref_id = wire.number reply.ref_id; success = true; card_pan = reply.card_pan })

  -- The body of the outcome, if there is one, holds one value at most: a decoder that reads what
  -- another has left of it after a value finds none.
  abbrev pub HoldsOne : Result (Response B) → Type 0
  HoldsOne (err e) = Unit
  HoldsOne (ok resp) =
      (z first z' : ZarinpalVerifyResponse)
      → wire.decode_verify z resp.body ≡ ok first
      → (e : GoError) × (wire.decode_verify z' (wire.rest resp.body) ≡ err e)

  -- No outcome of the request is taken for a payment that succeeded.
  pub verify_payment-errs :
      (outcome : Result (Response B))
      → HoldsOne outcome
      → (e : GoError) × (verify_payment outcome ≡ err e)
  unfolding verify_payment
  verify_payment-errs (err e) one = (caused internal "zarinpal verify request failed" e, refl)
  verify_payment-errs (ok resp) one =
      let zero : ZarinpalVerifyResponse = record {
        code = pos 0;
        text = "";
        ref_id = pos 0;
        card_pan = "";
      } in
      let text : String = "failed to decode zarinpal verify response" in
      elim (Result-cases (wire.decode_verify zero resp.body)) [
        | inl (x, bad) ↦ (caused internal text x, rw bad refl)
        | inr (first, good) ↦
            elim (Bool-cases
              (leb_ℤ (pos 200) resp.status_code && ltb_ℤ resp.status_code (pos 300))) [
                | inl fits ↦
                    let (e, end) = one zero first first good in
                    (caused internal text e, rw (good, fits, end) refl)
                | inr other ↦ (
                  new internal (
                      str_append "zarinpal returned unexpected HTTP status "
                        (wire.number resp.status_code)),
                  rw (good, other) refl,
                )
              ]
      ]
