-- ===== src/Product/Fresh.antt =====
-- What the cache of products holds: under the key of a product, the row of that product.
use Prim.Native.String.{◌++◌ as str_append}
use text.Mathlib.Text.{◌==◌ as str_eq}
use text.Mathlib.TextEquality.{eq_iff}
use text.Mathlib.TextLemmas.{append_cancel_left, append_inj, append_assoc}
use golang_gin.Prelude.{
  ℕ, ◌≡◌, ◌≢◌, refl, sym, ◌∙◌, ap, String, true, false, none, some, [], ◌∷◌, ◌==◌, ==_iff, All,
  All-map, Bool-cases, inl, inr, arith,
}
use golang_gin.Prelude.Int.{ℤ}
use golang_gin.Errors.{ok, Result-cases}
use golang_gin.Db.Laws.{find_key}
use golang_gin.Cache.{Entry, Redis, build, removed, get, set, delete}
use golang_gin.Cache.Laws.{removed-All, find_where-All, get-eq-ok, set-eq-ok}
use golang_gin.Product.{Product, Table}
use golang_gin.Product.Cached.{
  Deps, CacheEnv, product_key, search_key, get_product, set_product, invalidate_product,
}

-- What is relied on: different UUIDs have different texts, and JSON gives a product back.
pub record IsSound (deps : Deps) : Type 0 where
  pub formats : (a b : ℕ) → deps.format a ≡ deps.format b → a ≡ b
  pub reads :
      (p : Product) (text : String)
      → deps.product_json.marshal p ≡ ok text
      → deps.product_json.unmarshal text ≡ ok p

-- The rows of the ids other than one are still there.
abbrev pub IsElsewhere : ℕ → Table → Table → Type 0
IsElsewhere id rows rows' =
    (j : ℕ) (p : Product)
    → (j == id) ≡ false
    → find_key (λ r. r.id) j rows ≡ some p
    → find_key (λ r. r.id) j rows' ≡ some p

apart : (x y : String) → str_append "product-service:s" x ≢ str_append "product-service:p" y
apart x y h =
    let (same, rest) = append_inj h refl in
    let never : str_eq "product-service:s" "product-service:p" ≡ true =
      (eq_iff "product-service:s" "product-service:p").1 same in
    ground arith

module _ (deps : Deps) (sound : IsSound deps) where
  open deps use {product_json, format}

  -- An entry under the key of a product is the row of that product.
  abbrev pub IsFresh : Table → Entry → Type 0
  IsFresh rows e =
      (id : ℕ) (p : Product)
      → e.key ≡ product_key deps id
      → product_json.unmarshal e.text ≡ ok p
      → find_key (λ r. r.id) id rows ≡ some p

  pub product_key-inj : (a b : ℕ) → product_key deps a ≡ product_key deps b → a ≡ b
  unfolding product_key
  product_key-inj a b h = sound.formats a b (
      append_cancel_left ":" (format a) (format b) (
        append_cancel_left "product-service:product" (str_append ":" (format a))
          (str_append ":" (format b)) h))

  pub search_key-product_key :
      (query category : String) (limit offset : ℤ) (id : ℕ)
      → search_key deps query category limit offset ≢ product_key deps id
  unfolding search_key product_key
  search_key-product_key query category limit offset id h =
      let rest =
        str_append ":" (build category (query ∷ deps.itoa limit ∷ deps.itoa offset ∷ [])) in
      let text = str_append ":" (format id) in
      apart (str_append "earch" rest) (str_append "roduct" text) (
        sym (append_assoc "product-service:s" "earch" rest)
        ∙ (h ∙ append_assoc "product-service:p" "roduct" text))

  -- A look into a fresh cache finds the row.
  pub get_product-row :
      (env : CacheEnv) (id : ℕ) (rows : Table) (redis : Redis) (p : Product)
      → All (IsFresh rows) redis
      → get_product deps env id redis ≡ some p
      → find_key (λ r. r.id) id rows ≡ some p
  unfolding get_product
  get_product-row env id rows redis p fresh h =
      let is : get product_json env.get env.read (product_key deps id) redis ≡ ok (some p) =
        ground arith in
      let (e, found, value) =
        get-eq-ok product_json env.get env.read (product_key deps id) redis p is in
      let (good, same) =
        find_where-All (IsFresh rows) env.read (product_key deps id) redis e fresh found in
      good id p same value

  -- What is stored of a row is fresh.
  pub set_product-IsFresh :
      (env : CacheEnv) (p : Product) (rows : Table) (redis : Redis)
      → All (IsFresh rows) redis
      → find_key (λ r. r.id) p.id rows ≡ some p
      → All (IsFresh rows) (set_product deps env p redis)
  unfolding set_product
  set_product-IsFresh env p rows redis fresh row =
      elim (Result-cases
        (set product_json env.set env.written (product_key deps p.id) p deps.product_ttl redis)) [
          | inl (e, is) ↦ rw is fresh
          | inr (redis', is) ↦
              let (text, made, done) =
                set-eq-ok product_json env.set env.written (product_key deps p.id) p
                  deps.product_ttl redis redis' is in
              rw (is, done)
                (
                  new_entry text made,
                  All-map (λ e. IsFresh rows e × (str_eq e.key (product_key deps p.id) ≡ false))
                      (IsFresh rows) (λ e h. h.0) (removed (product_key deps p.id) redis)
                      (removed-All (IsFresh rows) (product_key deps p.id) redis fresh),
                )
        ]
    where
      new_entry :
          (text : String)
          → product_json.marshal p ≡ ok text
          → (id : ℕ) (q : Product) → product_key deps p.id ≡ product_key deps id
          → product_json.unmarshal text ≡ ok q
          → find_key (λ r. r.id) id rows ≡ some q
      new_entry text made id q keys value =
          let ids = product_key-inj p.id id keys in
          let back = sound.reads p text made in
          let same : p ≡ q = ground arith in rw (← ids, ← same) row

  -- The invalidation of a product whose row has changed leaves what is fresh.
  pub invalidate_product-IsFresh :
      (id : ℕ) (rows rows' : Table) (redis : Redis)
      → IsElsewhere id rows rows'
      → All (IsFresh rows) redis
      → All (IsFresh rows') (invalidate_product deps none id redis)
  unfolding invalidate_product delete
  invalidate_product-IsFresh id rows rows' redis elsewhere fresh =
      All-map (λ e. IsFresh rows e × (str_eq e.key (product_key deps id) ≡ false)) (IsFresh rows')
        step (removed (product_key deps id) redis)
        (removed-All (IsFresh rows) (product_key deps id) redis fresh)
    where
      step :
          (e : Entry)
          → IsFresh rows e × (str_eq e.key (product_key deps id) ≡ false)
          → IsFresh rows' e
      step e (good, other) j p keys value = elim (Bool-cases (j == id)) [
        | inl same ↦
            let is : j ≡ id = (==_iff j id).0 same in
            let here = (eq_iff e.key (product_key deps id)).1 (keys ∙ ap (product_key deps) is) in
            absurd (ground arith)
        | inr ne ↦ elsewhere j p ne (good j p keys value)
      ]
