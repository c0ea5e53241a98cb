-- ===== src/Product/Gate.antt =====
-- Who may change products over the network.
use text.Mathlib.Text.{◌==◌ as str_eq}
use golang_gin.Prelude.{
  ℕ, ◌≡◌, refl, String, Bool, true, false, inl, inr, Option, none, some, List, [], ◌∷◌,
}
use golang_gin.Errors.{GoError, Fault, Result, ok, err, Result-cases}
use golang_gin.Errors.Grpc.{with_status}
use golang_gin.Auth.{AccessClaims}
use golang_gin.Middleware.{
  Verdict, runs, stops, trim_prefix, with_values, auth_interceptor, limited, rate_limit_interceptor,
}
use golang_gin.Rpc.{Reply, CallEnv, decided, handled, chain}
use golang_gin.Rpc.Laws.{IsFailed, handled-IsFailed}
use golang_gin.Product.Cached.{Deps, World}
use golang_gin.Product.Service.{CreateRequest, UpdateRequest, UpdateEnv}
use golang_gin.Product.Service
use golang_gin.Product.Admin.{IsCommon, create_product-IsRefused}
use golang_gin.Product.Server.{
  Method, create_product, update_product, delete_product, full_name, rate_limit_rules,
  public_methods, call, serve_create_product, serve_update_product, serve_delete_product,
}

-- The values of "authorization" hold no token of an admin.
abbrev pub HasNoAdmin : (String → Result AccessClaims) → List String → Type 0
HasNoAdmin tokens [] = Unit
HasNoAdmin tokens (value ∷ values) =
    (c : AccessClaims) → tokens (trim_prefix value "Bearer ") ≡ ok c → str_eq c.role "admin" ≡ false

-- A call is stopped, or its handler runs with the claims of someone who is no admin.
abbrev IsBarred : Verdict → Type 0
IsBarred (stops st) = Unit
IsBarred (runs c) = IsCommon c

with_values-IsBarred :
    (tokens : String → Result AccessClaims) (values : List String)
    → HasNoAdmin tokens values
    → IsBarred (with_values tokens values)
with_values-IsBarred tokens [] h = tt
with_values-IsBarred tokens (value ∷ values) h =
    elim (Result-cases (tokens (trim_prefix value "Bearer "))) [
      | inl (e, is) ↦ rw is tt
      | inr (c, is) ↦ rw is (h c is)
    ]

limited-IsBarred : (r : Result Bool) (v : Verdict) → IsBarred v → IsBarred (limited r v)
limited-IsBarred (err e) v h = tt
limited-IsBarred (ok false) v h = tt
limited-IsBarred (ok true) v h = h

rate_limit_interceptor-IsBarred :
    (allow : String → ℕ → Result ℕ) (limit : Option ℕ) (method caller : String) (v : Verdict)
    → IsBarred v
    → IsBarred (rate_limit_interceptor allow limit method caller v)
unfolding rate_limit_interceptor
rate_limit_interceptor-IsBarred allow none method caller v h = h
rate_limit_interceptor-IsBarred allow (some n) method caller v h = limited-IsBarred _ v h

decided-IsFailed {κ} :
    {A : Type κ} (v : Verdict) (w : World) (handler : Option AccessClaims → World × Reply A)
    → IsBarred v
    → ((c : Option AccessClaims) → IsCommon c → IsFailed w (handler c))
    → IsFailed w (decided v w handler)
unfolding decided
decided-IsFailed (stops st) w handler h f = (with_status st, refl)
decided-IsFailed (runs c) w handler h f = f c h

module _ (env : CallEnv) (values : List String) (none_admin : HasNoAdmin env.tokens values) where
  call-IsFailed {κ} :
      {A : Type κ} (m : Method) (w : World) (service : Option AccessClaims → World × Result A)
      → public_methods m ≡ false
      → ((c : Option AccessClaims) → IsCommon c → (e : GoError) × (service c ≡ (w, err e)))
      → IsFailed w (call m env values w service)
  unfolding call chain auth_interceptor
  call-IsFailed m w service closed f =
      let gate : Verdict = auth_interceptor (public_methods m) env.tokens (some values) in
      let barred : IsBarred gate = rw closed (with_values-IsBarred env.tokens values none_admin) in
      decided-IsFailed
        (rate_limit_interceptor env.allow (rate_limit_rules m) (full_name m) env.caller gate) w
        (λ c. handled env.details_ok "product-service" (service c))
        (rate_limit_interceptor-IsBarred env.allow (rate_limit_rules m) (full_name m) env.caller
          gate barred)
        λ c common.
          let (e, is) = f c common in
          handled-IsFailed env.details_ok "product-service" w (service c) e is

  -- Over the network, `CreateProduct`, `UpdateProduct` and `DeleteProduct` without the token of an
  -- admin fail and leave the table and the cache alone, whatever the request asks for and whatever
  -- the rate limit says: without a token, with one that is not valid or has expired, and with one
  -- of another role.
  pub serve_product-IsFailed :
      (deps : Deps) (parse : String → Option ℕ) (insert : Fault) (fresh : ℕ) (c : CreateRequest)
      (update : UpdateEnv) (u : UpdateRequest) (exec del : Fault) (id : String) (w : World)
      → IsFailed w (serve_create_product deps parse env values insert fresh c w)
        × IsFailed w (serve_update_product deps parse env values update u w)
        × IsFailed w (serve_delete_product deps parse env values exec del id w)
  unfolding serve_create_product serve_update_product serve_delete_product
  serve_product-IsFailed deps parse insert fresh c update u exec del id w =
      let refused = λ (a : Option AccessClaims) (common : IsCommon a).
        create_product-IsRefused deps parse a common insert fresh c update u exec del id w in
      (
        call-IsFailed create_product w
            (λ a. Service.create_product deps parse insert fresh a (some c) w) refl
            (λ a common. let (x, y, z) = refused a common in (x.0, x.1)),
        call-IsFailed update_product w (λ a. Service.update_product deps parse update a (some u) w)
            refl (λ a common. let (x, y, z) = refused a common in (y.0, y.1)),
        call-IsFailed delete_product w
            (λ a. Service.delete_product deps parse exec del a (some id) w) refl
            (λ a common. let (x, y, z) = refused a common in (z.0, z.1)),
      )
