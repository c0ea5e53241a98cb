-- ===== src/Errors/Boundary.antt =====
-- What an application error becomes when it crosses a service boundary: over gRPC to another
-- service, and over the gateway to an HTTP client.
use golang_gin.Prelude.{ℕ, ◌≡◌, String, Bool, true, false, List, [], ◌∷◌, if◌then◌else◌, ◌⊎◌, arith}
use golang_gin.Errors.{
  Kind, unknown, not_found, already_exists, invalid_input, unauthenticated, permission_denied,
  internal, GoError, message, get_kind,
}
use golang_gin.Errors.Grpc.{Status, with_status, from_app_error, to_app_error}
use golang_gin.Errors.Http.{Body, respond}

-- The five kinds that a client may see.
abbrev pub is_public : Kind → Bool
is_public unknown = false
is_public internal = false
is_public _ = true

-- The HTTP status that stands for a kind.
abbrev pub status_of_kind : Kind → ℕ
status_of_kind not_found = 404
status_of_kind already_exists = 409
status_of_kind invalid_input = 400
status_of_kind unauthenticated = 401
status_of_kind permission_denied = 403
status_of_kind _ = 500

-- The reason that stands for a kind.
abbrev pub reason_of_kind : Kind → String
reason_of_kind not_found = "NOT_FOUND"
reason_of_kind already_exists = "ALREADY_EXISTS"
reason_of_kind invalid_input = ""
reason_of_kind unauthenticated = "UNAUTHENTICATED"
reason_of_kind permission_denied = "PERMISSION_DENIED"
reason_of_kind _ = "INTERNAL_ERROR"

-- The fields that an answer lists: the text of an invalid input, under no name.
abbrev pub fields_of_kind : Kind → String → List (String × String)
fields_of_kind invalid_input text = ("", text) ∷ []
fields_of_kind _ text = []

-- The whole body for a client that may see the text.
abbrev pub public_body : Bool → Kind → String → Body
public_body details_ok k text = record {
  error = text;
  reason = if details_ok then reason_of_kind k else "";
  fields = if details_ok then fields_of_kind k text else [];
}

-- The whole body for one that may not. It is the same for all errors.
abbrev pub private_body : Bool → Body
private_body details_ok = record {
  error = "internal server error";
  reason = if details_ok then "INTERNAL_ERROR" else "";
  fields = [];
}

-- An error that one service returns and another receives over gRPC keeps its kind and its text if
-- the kind is public; an error of another kind arrives as internal. Whether the details could be
-- attached makes no difference.
pub to_app_error-from_app_error :
    (details_ok : Bool) (render : Status → String) (e : GoError) (domain : String)
    → ((is_public (get_kind e) ≡ true)
        × (get_kind (to_app_error render (with_status (from_app_error details_ok e domain)))
            ≡ get_kind e)
        × (message (to_app_error render (with_status (from_app_error details_ok e domain)))
            ≡ message e))
      ⊎ ((is_public (get_kind e) ≡ false)
          × (get_kind (to_app_error render (with_status (from_app_error details_ok e domain)))
              ≡ internal))
unfolding to_app_error from_app_error get_kind message
to_app_error-from_app_error details_ok render e domain = ground arith

-- The gateway answers an application error with the HTTP status of its kind. If the kind is public
-- the body is the error's text, the reason of the kind, and for an invalid input a field with that
-- text. For any other kind the status is 500 and the whole body is a constant, so that neither the
-- messages nor the causes of internal errors leave the system. If the details could not be attached
-- the reason and the fields are empty.
pub respond-from_app_error :
    (details_ok : Bool) (e : GoError) (domain : String)
    → let answer = respond (with_status (from_app_error details_ok e domain)) in
      (answer.0 ≡ status_of_kind (get_kind e))
      × (((is_public (get_kind e) ≡ true)
            × (answer.1 ≡ public_body details_ok (get_kind e) (message e)))
          ⊎ ((is_public (get_kind e) ≡ false)
              × (answer.0 ≡ 500)
              × (answer.1 ≡ private_body details_ok)))
unfolding respond from_app_error get_kind message
respond-from_app_error details_ok e domain = ground arith
