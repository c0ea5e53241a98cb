-- ===== src/Config/Secrets.antt =====
-- One secret for all services: what the configurations do to the tokens of the user service.
use Prim.Native.String.{◌++◌ as str_append}
use golang_gin.Prelude.{
  ℕ, ◌+◌, ◌≡◌, refl, sym, ◌∙◌, ◌⊎◌, inl, inr, String, false, some, List, ◌∷◌, ltb, arith,
}
use golang_gin.Prelude.Int.{pos}
use golang_gin.Errors.{ok}
use golang_gin.Auth.{Jwt, generate_access_token, parse_access_token}
use golang_gin.Auth.Laws.{IsJwt}
use golang_gin.Middleware.{auth_interceptor}
use golang_gin.Middleware.Laws.{IsDecided, auth_interceptor-generate_access_token}
use golang_gin.Config.Env.{Env, require}
use golang_gin.Config.Services.{
  OrderConfig, ProductConfig, PaymentConfig, UserConfig, load_orders, load_products, load_payments,
  load_users,
}

require-eq-ok : (env : Env) (key text : String) → require env key ≡ ok text → text ≡ env.getenv key
unfolding require
require-eq-ok env key text h = ground arith

load_users-eq-ok :
    (env : Env) (c : UserConfig)
    → load_users env ≡ ok c
    → require env "JWT_SECRET" ≡ ok c.jwt.secret
unfolding load_users
load_users-eq-ok env c h = ground arith

load_orders-eq-ok :
    (env : Env) (c : OrderConfig)
    → load_orders env ≡ ok c
    → require env "JWT_SECRET" ≡ ok c.jwt.secret
unfolding load_orders
load_orders-eq-ok env c h = ground arith

load_products-eq-ok :
    (env : Env) (c : ProductConfig)
    → load_products env ≡ ok c
    → require env "JWT_SECRET" ≡ ok c.jwt.secret
unfolding load_products
load_products-eq-ok env c h = ground arith

load_payments-eq-ok :
    (env : Env) (c : PaymentConfig)
    → load_payments env ≡ ok c
    → require env "JWT_SECRET" ≡ ok c.jwt.secret
unfolding load_payments
load_payments-eq-ok env c h = ground arith

-- The secret of a service that checks tokens, in an environment that it starts in.
abbrev pub IsSecretOf : Env → String → Type 0
IsSecretOf env secret =
    ((c : OrderConfig) × (load_orders env ≡ ok c) × (c.jwt.secret ≡ secret))
    ⊎ ((c : ProductConfig) × (load_products env ≡ ok c) × (c.jwt.secret ≡ secret))
    ⊎ ((c : PaymentConfig) × (load_payments env ≡ ok c) × (c.jwt.secret ≡ secret))
    ⊎ ((c : UserConfig) × (load_users env ≡ ok c) × (c.jwt.secret ≡ secret))

IsSecretOf-getenv :
    (env : Env) (secret : String) → IsSecretOf env secret → secret ≡ env.getenv "JWT_SECRET"
IsSecretOf-getenv env secret (inl (c, h, is)) =
    sym is ∙ require-eq-ok env "JWT_SECRET" c.jwt.secret (load_orders-eq-ok env c h)
IsSecretOf-getenv env secret (inr (inl (c, h, is))) =
    sym is ∙ require-eq-ok env "JWT_SECRET" c.jwt.secret (load_products-eq-ok env c h)
IsSecretOf-getenv env secret (inr (inr (inl (c, h, is)))) =
    sym is ∙ require-eq-ok env "JWT_SECRET" c.jwt.secret (load_payments-eq-ok env c h)
IsSecretOf-getenv env secret (inr (inr (inr (c, h, is)))) =
    sym is ∙ require-eq-ok env "JWT_SECRET" c.jwt.secret (load_users-eq-ok env c h)

-- Where the user service and any service start with the same `JWT_SECRET`, and with a library that
-- keeps the guarantees of JWT: a caller of a method of that service that is not public, with an
-- access token that the user service made under its configuration, is let through with exactly the
-- user and the role of the token until the token expires, after the time that `JWT_ACCESS_TTL` gives
-- if it is not negative, and is refused as unauthenticated from then on.
pub auth_interceptor-load :
    (jwt : Jwt)
    → IsJwt jwt
    → (of_users of_service : Env) (u : UserConfig) (secret : String) (ttl : ℕ)
    → load_users of_users ≡ ok u
    → IsSecretOf of_service secret
    → of_users.getenv "JWT_SECRET" ≡ of_service.getenv "JWT_SECRET"
    → u.jwt.access_token_ttl ≡ pos ttl
    → (user role : String) (issued : ℕ) (token : String)
    → generate_access_token jwt u.jwt.secret user role ttl issued ≡ ok token
    → (now : ℕ) (others : List String)
    → IsDecided
        (ltb now (jwt.numeric_date (issued + ttl)))
        (record { user_id = user; role = role })
        (auth_interceptor false
          (λ t. parse_access_token jwt secret t now)
          (some (str_append "Bearer " token ∷ others)))
auth_interceptor-load jwt laws of_users of_service u secret ttl started known shared lives user role
      issued token made now others =
    let mine : u.jwt.secret ≡ of_users.getenv "JWT_SECRET" =
      IsSecretOf-getenv of_users u.jwt.secret (inr (inr (inr (u, started, refl)))) in
    let same : u.jwt.secret ≡ secret =
      mine ∙ (shared ∙ sym (IsSecretOf-getenv of_service secret known)) in
    auth_interceptor-generate_access_token jwt laws secret user role ttl issued token
      (rw same at made) now others
