-- ===== src/Errors/Http.antt =====
-- api/internal/httperrors/httperrors.go: a gRPC status as the HTTP answer of the gateway.
use golang_gin.Prelude.{ℕ, String, List, [], ◌∷◌, ◌++◌}
use golang_gin.Errors.Grpc.{
  Code, invalid_argument, code_not_found, code_already_exists, code_permission_denied,
  resource_exhausted, code_unauthenticated, Detail, error_info, bad_request, RemoteError,
  with_status, no_status,
}

pub record Body : Type 0 where
  pub error : String
  pub reason : String
  pub fields : List (String × String)

-- `httpStatusFromCode`
unfoldable pub http_status_from_code : Code → ℕ
http_status_from_code code_not_found = 404
http_status_from_code code_already_exists = 409
http_status_from_code invalid_argument = 400
http_status_from_code code_unauthenticated = 401
http_status_from_code code_permission_denied = 403
http_status_from_code resource_exhausted = 429
http_status_from_code _ = 500

-- the loop of `Respond` over the details
unfoldable pub add_details : List Detail → Body → Body
add_details [] body = body
add_details (error_info reason domain ∷ ds) body = add_details ds (record body { reason = reason })
add_details (bad_request fields ∷ ds) body =
    add_details ds (record body { fields = body.fields ++ fields })

-- `Respond`: the HTTP status and the body that it writes
unfoldable pub respond : RemoteError → ℕ × Body
unfolding add_details http_status_from_code
respond (with_status st) = (
  http_status_from_code st.code,
  add_details st.details (record { error = st.text; reason = ""; fields = [] }),
)
respond (no_status e) = (500, record { error = "internal server error"; reason = ""; fields = [] })
