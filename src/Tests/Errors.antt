-- ===== src/Tests/Errors.antt =====
-- The error theorems at an error of the order service.
use golang_gin.Prelude.{◌≡◌, ◌⊎◌, true, false}
use golang_gin.Errors.{GoError, not_found, internal, caused, foreign, new, get_kind, message}
use golang_gin.Errors.Grpc.{with_status, from_app_error, to_app_error}
use golang_gin.Errors.Http.{respond}
use golang_gin.Errors.Boundary.{
  is_public, status_of_kind, public_body, private_body, to_app_error-from_app_error,
  respond-from_app_error,
}

abbrev missing : GoError
missing = new not_found "order not found"

abbrev broken : GoError
broken = caused internal "failed to get order" (foreign "connection reset")

to_app_error-from_app_error_example :
    ((is_public (get_kind missing) ≡ true)
      × (get_kind
            (to_app_error (λ s. s.text) (with_status (from_app_error true missing "order-service")))
          ≡ get_kind missing)
      × (message
            (to_app_error (λ s. s.text) (with_status (from_app_error true missing "order-service")))
          ≡ message missing))
    ⊎ ((is_public (get_kind missing) ≡ false)
        × (get_kind (
              to_app_error
                (λ s. s.text)
                (with_status (from_app_error true missing "order-service")))
            ≡ internal))
to_app_error-from_app_error_example =
    to_app_error-from_app_error true (λ s. s.text) missing "order-service"

respond-from_app_error_example :
    ((respond (with_status (from_app_error true broken "order-service"))).0
      ≡ status_of_kind (get_kind broken))
    × (((is_public (get_kind broken) ≡ true)
          × ((respond (with_status (from_app_error true broken "order-service"))).1
              ≡ public_body true (get_kind broken) (message broken)))
        ⊎ ((is_public (get_kind broken) ≡ false)
            × ((respond (with_status (from_app_error true broken "order-service"))).0 ≡ 500)
            × ((respond (with_status (from_app_error true broken "order-service"))).1
                ≡ private_body true)))
respond-from_app_error_example = respond-from_app_error true broken "order-service"
