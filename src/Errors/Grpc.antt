-- ===== src/Errors/Grpc.antt =====
-- pkg/grpcerrors: an application error as a gRPC status (error_mapper.go) and back (client.go).
-- The status type is the library's; `details_ok` says whether its `WithDetails` succeeds.
use golang_gin.Prelude.{String, Bool, true, false, List, [], ◌∷◌}
use golang_gin.Errors.{
  Kind, not_found, already_exists, invalid_input, unauthenticated, permission_denied, internal,
  GoError, new, caused, foreign, message, get_kind,
}

pub data Code : Type 0 where
  ok canceled unknown_code invalid_argument deadline_exceeded code_not_found code_already_exists
        code_permission_denied resource_exhausted failed_precondition aborted out_of_range
        unimplemented code_internal unavailable data_loss code_unauthenticated :
      Code

-- `errdetails.ErrorInfo` and `errdetails.BadRequest`, the two details that the program attaches.
pub data Detail : Type 0 where
  error_info : String → String → Detail
  bad_request : List (String × String) → Detail

pub record Status : Type 0 where
  pub code : Code
  pub text : String
  pub details : List Detail

-- An error that a gRPC call returns: one with a status, or any other.
pub data RemoteError : Type 0 where
  with_status : Status → RemoteError
  no_status : GoError → RemoteError

-- `withDetails`
unfoldable pub with_details : Bool → Code → String → Detail → Status
with_details true code text detail = record { code = code; text = text; details = detail ∷ [] }
with_details false code text detail = record { code = code; text = text; details = [] }

-- the `switch` of `FromAppError`
from_kind : Kind → Bool → GoError → String → Status
unfolding with_details message
from_kind invalid_input details_ok e domain =
    with_details details_ok invalid_argument (message e) (bad_request (("", message e) ∷ []))
from_kind unauthenticated details_ok e domain =
    with_details details_ok code_unauthenticated (message e) (error_info "UNAUTHENTICATED" domain)
from_kind not_found details_ok e domain =
    with_details details_ok code_not_found (message e) (error_info "NOT_FOUND" domain)
from_kind already_exists details_ok e domain =
    with_details details_ok code_already_exists (message e) (error_info "ALREADY_EXISTS" domain)
from_kind permission_denied details_ok e domain =
    with_details details_ok code_permission_denied (message e)
      (error_info "PERMISSION_DENIED" domain)
from_kind _ details_ok e domain =
    with_details details_ok code_internal "internal server error"
      (error_info "INTERNAL_ERROR" domain)

-- `FromAppError` of an error that is not nil
unfoldable pub from_app_error : Bool → GoError → String → Status
unfolding from_kind get_kind
from_app_error details_ok e domain = from_kind (get_kind e) details_ok e domain

-- the `switch` of `ToAppError`
from_code : Code → String → GoError → GoError
from_code invalid_argument text e = new invalid_input text
from_code code_not_found text e = new not_found text
from_code code_already_exists text e = new already_exists text
from_code code_unauthenticated text e = new unauthenticated text
from_code code_permission_denied text e = new permission_denied text
from_code _ text e = caused internal "remote service call failed" e

-- `ToAppError` of an error that is not nil; `render` is the text of a status as a Go error.
unfoldable pub to_app_error : (Status → String) → RemoteError → GoError
unfolding from_code
to_app_error render (with_status st) = from_code st.code st.text (foreign (render st))
to_app_error render (no_status e) = caused internal "non-grpc error from remote service" e
