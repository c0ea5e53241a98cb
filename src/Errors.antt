-- ===== src/Errors.antt =====
-- pkg/errors/errors.go: the application's error type, its constructors and its readers, and the
-- result of a Go function that returns a value or an error.
-- A Go `error` is an `*Error` with no cause, an `*Error` with a cause, or an error of another
-- package, of which only the text is known.
pub mod Grpc
pub mod Http
pub mod Boundary
use text.Mathlib.Text.{◌==◌ as str_eq}
use Prim.Native.String.{◌++◌ as str_append}
use golang_gin.Prelude.{
  ◌≡◌, refl, ◌⊎◌, inl, inr, String, Bool, true, false, ◌&&◌, Option, none, some, arith,
}

pub data Kind : Type 0 where
  unknown not_found already_exists invalid_input unauthenticated permission_denied internal : Kind

-- `new` is an `Error` whose `err` is nil, `caused` one with a cause.
pub data GoError : Type 0 where
  new : Kind → String → GoError
  caused : Kind → String → GoError → GoError
  foreign : String → GoError

-- `Wrap`: its cause may be nil.
unfoldable pub wrap : Kind → Option GoError → String → GoError
wrap kind none message = new kind message
wrap kind (some err) message = caused kind message err

-- `Error()`, the text of an error.
unfoldable pub message : GoError → String
message (new kind msg) = msg
message (caused kind msg err) = str_append msg (str_append ": " (message err))
message (foreign msg) = msg

-- `Unwrap`
unfoldable pub unwrap : GoError → Option GoError
unwrap (new kind msg) = none
unwrap (caused kind msg err) = some err
unwrap (foreign msg) = none

-- `GetKind`: the kind of the outermost `*Error` of the chain. A foreign error ends the chain.
unfoldable pub get_kind : GoError → Kind
get_kind (new kind msg) = kind
get_kind (caused kind msg err) = kind
get_kind (foreign msg) = unknown

pub Kind-discrete : Discrete Kind
Kind-discrete = hlevel

unfoldable pub kind_eq : Kind → Kind → Bool
kind_eq unknown unknown = true
kind_eq not_found not_found = true
kind_eq already_exists already_exists = true
kind_eq invalid_input invalid_input = true
kind_eq unauthenticated unauthenticated = true
kind_eq permission_denied permission_denied = true
kind_eq internal internal = true
kind_eq _ _ = false

pub is_kind : GoError → Kind → Bool
is_kind e k = kind_eq (get_kind e) k

-- A Go function that returns a value and an `error`.
pub data Result {ℓ} (A : Type ℓ) : Type ℓ where
  err : GoError → Result A
  ok : A → Result A

abbrev pub guard : Bool → Kind → String → Result (Unit {0})
guard false kind text = err (new kind text)
guard true kind text = ok tt

infixl 5 ◌>>=◌ ◌>>◌
abbrev pub ◌>>=◌ {ℓ κ} : {A : Type ℓ} {B : Type κ} → Result A → (A → Result B) → Result B
err e >>= next = err e
ok value >>= next = next value

abbrev pub ◌>>◌ {ℓ} : {B : Type ℓ} → Result (Unit {0}) → Result B → Result B
first >> next = first >>= λ _. next

-- What a statement, a call or a publication outside the program reports: nil, or its error.
abbrev pub Fault : Type 0
Fault = Option GoError

-- `if err != nil { return Wrap(kind, err, text) }`
abbrev pub check : Fault → Kind → String → Result (Unit {0})
check none kind text = ok tt
check (some e) kind text = err (caused kind text e)

-- To split on a computed result and keep the equation.
pub Result-cases {ℓ} :
    {A : Type ℓ} (r : Result A) → ((e : GoError) × (r ≡ err e)) ⊎ ((a : A) × (r ≡ ok a))
Result-cases (err e) = inl (e, refl)
Result-cases (ok a) = inr (a, refl)
