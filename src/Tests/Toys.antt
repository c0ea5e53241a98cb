-- ===== src/Tests/Toys.antt =====
-- A toy JWT library and a toy bcrypt, with a user and her tokens.
use text.Mathlib.Text.{◌==◌ as str_eq}
use text.Mathlib.TextEquality.{eq_iff}
use Prim.Native.String.{◌++◌ as str_append}
use golang_gin.Prelude.{
  ℕ, ◌≡◌, refl, String, Bool, true, false, ◌&&◌, none, some, List, [], ◌∷◌, if◌then◌else◌, ◌==◌,
  ltb, arith,
}
use golang_gin.Errors.{Result, ok, err, foreign}
use golang_gin.Auth.{
  AccessClaims, Parsed, claims_of, expired, malformed, Jwt, matches, mismatch, Bcrypt,
}
use golang_gin.Auth.Laws.{IsJwt}
use golang_gin.User.{User, member, RefreshToken}
use golang_gin.User.Table.{Lookup}
use golang_gin.User.Challenges.{Entry}
use golang_gin.User.Service.{Deps, World, AuthResponse, IssueEnv}
use golang_gin.User.Session.{RefreshEnv, refresh_token}
use golang_gin.User.Calls.{Call, refreshes, logs_in}

-- The key "k" signs the claims of user "1", a member, from 5 to 15, as the token "t"; nothing else.
abbrev pub is_signed : String → AccessClaims → ℕ → ℕ → Bool
is_signed key c from to =
    str_eq key "k" && (str_eq c.user_id "1" && (str_eq c.role "member" && to == 15))

abbrev pub toy_keys : Result String → Parsed
toy_keys (ok key) =
    if str_eq key "k"
    then claims_of (record { user_id = "1"; role = "member" }) true
    else malformed (foreign "signature is invalid")
toy_keys (err e) = malformed e

abbrev pub toy_parse : String → (Bool → Result String) → ℕ → Parsed
toy_parse token keys now =
    if ltb now 15 then toy_keys (keys true) else expired (foreign "token is expired")

abbrev pub toy_jwt : Jwt
toy_jwt = record {
  numeric_date = λ t. t;
  sign = λ key c from to. if is_signed key c from to then ok "t" else err (foreign "no key");
  parse_with = toy_parse;
}

abbrev pub claims_for : String → String → AccessClaims
claims_for user role = record { user_id = user; role = role }

pub toy_claims :
    (c : AccessClaims) → c.user_id ≡ "1" → c.role ≡ "member" → c ≡ claims_for "1" "member"
toy_claims c a b =
    let is : claims_for c.user_id c.role ≡ claims_for "1" "member" = rw (a, b) refl in is

-- What was signed.
pub signed :
    (key : String) (c : AccessClaims) (from to : ℕ) (token : String)
    → toy_jwt.sign key c from to ≡ ok token
    → (key ≡ "k") × (c ≡ record { user_id = "1"; role = "member" }) × (to ≡ 15) × (token ≡ "t")
signed key c from to token h =
    let keyed : str_eq key "k" ≡ true = ground arith in
    let user : str_eq c.user_id "1" ≡ true = ground arith in
    let role : str_eq c.role "member" ≡ true = ground arith in
    let is = toy_claims c ((eq_iff c.user_id "1").0 user) ((eq_iff c.role "member").0 role) in
    ((eq_iff key "k").0 keyed, is, ground arith, ground arith)

pub toy_jwt-IsJwt : IsJwt toy_jwt
toy_jwt-IsJwt = record {
  not_empty = λ key c from to token h. let (a, b, x, y) = signed key c from to token h in rw y refl;
  parses = λ key c from to token keys now h k early.
      let (a, b, x, y) = signed key c from to token h in rw (rw x at early, k, a, b) refl;
  expires = λ key c from to token keys now h k late.
      let (a, b, x, y) = signed key c from to token h in
      (foreign "token is expired", rw (rw x at late) refl);
}

abbrev pub toy_bcrypt : Bcrypt
toy_bcrypt = record {
  hash = λ p. ok (str_append "h:" p);
  compare = λ h p. if str_eq h (str_append "h:" p) then matches else mismatch;
  byte_length = λ p. 8;
}

abbrev pub toy_deps : Deps
toy_deps = record {
  parse = λ t. if str_eq t "1" then some 1 else if str_eq t "7" then some 7 else none;
  format = λ n. if n == 1 then "1" else "7";
  same_email = str_eq;
  hash_token = str_append "#";
  jwt = toy_jwt;
  bcrypt = toy_bcrypt;
  digits = λ n. "12345";
  secret = "k";
  access_ttl = 10;
  refresh_ttl = 100;
}

abbrev pub alice : User
alice = record {
  id = 1;
  email = "a@x";
  phone_number = "0912";
  full_name = "Alice";
  password_hash = "h:secret12";
  role = member;
}

abbrev pub first_token : RefreshToken
first_token = record { id = 3; user_id = 1; token_hash = "#r0"; expires_at = 200; revoked = false }

abbrev pub code_entry : Entry
code_entry = record {
  challenge = record {
    id = 7;
    user_id = 1;
    phone_number = "0912";
    code = "54321";
    expires_at = 200;
  };
  deadline = 200;
}

abbrev pub start : World
start = record {
  users = alice ∷ [];
  tokens = first_token ∷ [];
  challenges = code_entry ∷ [];
  sent = [];
}

abbrev pub issue : IssueEnv
issue = record { signed = 5; random = ok "r1"; issued = 6; created = 7; insert = none; fresh = 4 }

abbrev pub refresh : RefreshEnv
refresh = record { get = none; checked = 5; revoke = none; select = none }

abbrev pub answer : AuthResponse
answer = record {
  access_token = "t";
  refresh_token = "r1";
  expires_in = 0;
  user = record {
    id = "1";
    email = "a@x";
    phone_number = "0912";
    full_name = "Alice";
    role = member;
  };
}

abbrev pub after_refresh : World
unfolding refresh_token
after_refresh = (refresh_token toy_deps refresh issue (some "r0") start).0

abbrev pub query : Lookup
query = record { fault = none; choice = 0 }

-- The same token again, then a login, then the token of the first rotation.
abbrev pub calls : List Call
calls =
    refreshes refresh issue (some "r0")
    ∷ logs_in query (record issue { fresh = 5; random = ok "r2" }) (some ("a@x", "secret12"))
    ∷ refreshes refresh (record issue { fresh = 6; random = ok "r3" }) (some "r1")
    ∷ []
