-- ===== src/Product/Cached.antt =====
-- services/product-service/internal/cache: the keys of the cache store, and the repository that
-- looks into the cache first. The errors of the cache are dropped, as in the code.
use Prim.Native.String.{String}
use golang_gin.Prelude.{ℕ, suc, Option, none, some, List, [], ◌∷◌, ◌++◌}
use golang_gin.Prelude.Int.{ℤ}
use golang_gin.Errors.{Result, ok, err, Fault}
use golang_gin.Db.{RowsFault}
use golang_gin.Cache.{Json, Redis, build, get, set, delete}
use golang_gin.Product.{Product, Table}
use golang_gin.Product.Search.{Texts}
use golang_gin.Product.Search
use golang_gin.Product

-- The libraries that the repository needs: JSON, the texts of UUIDs and numbers, the texts of
-- PostgreSQL; and the times to live.
pub record Deps : Type 0 where
  pub product_json : Json Product
  pub search_json : Json (List Product)
  pub format : ℕ → String
  pub itoa : ℤ → String
  pub texts : Texts
  pub product_ttl : ℕ
  pub search_ttl : ℕ

-- The state: the table and Redis.
pub record World : Type 0 where
  pub rows : Table
  pub redis : Redis

-- How one look into the cache and one write to it go, with their times.
pub record CacheEnv : Type 0 where
  pub get : Fault
  pub read : ℕ
  pub set : Fault
  pub written : ℕ

-- What is in Redis after a write whose error is dropped.
abbrev pub kept : Redis → Result Redis → Redis
kept old (ok redis) = redis
kept old (err e) = old

-- A value that was found; an error of the cache counts as a miss.
abbrev pub hit {ℓ} : {A : Type ℓ} → Result (Option A) → Option A
hit (err e) = none
hit (ok o) = o

module _ (deps : Deps) where
  open deps use {product_json, search_json, format, itoa, texts, product_ttl, search_ttl}

  -- `productKey` and `searchKey`
  unfoldable pub product_key : ℕ → String
  product_key id = build "product-service:product" (format id ∷ [])

  unfoldable pub search_key : String → String → ℤ → ℤ → String
  search_key query category limit offset =
      build "product-service:search" (category ∷ query ∷ itoa limit ∷ itoa offset ∷ [])

  -- `GetProduct`, `SetProduct` and `InvalidateProduct` of the store.
  unfoldable pub get_product : CacheEnv → ℕ → Redis → Option Product
  unfolding get product_key
  get_product env id redis = hit (get product_json env.get env.read (product_key id) redis)

  unfoldable pub set_product : CacheEnv → Product → Redis → Redis
  unfolding set product_key
  set_product env p redis =
      kept redis (set product_json env.set env.written (product_key p.id) p product_ttl redis)

  unfoldable pub invalidate_product : Fault → ℕ → Redis → Redis
  unfolding delete product_key
  invalidate_product fault id redis = kept redis (delete fault (product_key id) redis)

  -- `GetByID` after a miss.
  unfoldable pub fetched : CacheEnv → World → Result Product → World × Result Product
  unfolding set_product
  fetched env w (err e) = (w, err e)
  fetched env w (ok p) = (record w { redis = set_product env p w.redis }, ok p)

  unfoldable pub looked_up : CacheEnv → Fault → ℕ → World → Option Product → World × Result Product
  unfolding Product.get_by_id fetched
  looked_up env select id w (some p) = (w, ok p)
  looked_up env select id w none = fetched env w (Product.get_by_id select id w.rows)

  unfoldable pub get_by_id : CacheEnv → Fault → ℕ → World → World × Result Product
  unfolding get_product looked_up
  get_by_id env select id w = looked_up env select id w (get_product env id w.redis)

  -- The loop of `GetByIDs`: what is in the cache, and the ids that are missing. The surroundings
  -- are those of each position of the list.
  abbrev pub put : ℕ → Option Product → List Product × List ℕ → List Product × List ℕ
  put id (some p) (found, missing) = (p ∷ found, missing)
  put id none (found, missing) = (found, id ∷ missing)

  unfoldable pub gather : (ℕ → CacheEnv) → List ℕ → Redis → List Product × List ℕ
  unfolding get_product
  gather env [] redis = ([], [])
  gather env (id ∷ ids) redis =
      put id (get_product (env 0) id redis) (gather (λ n. env (suc n)) ids redis)

  -- The second loop, which stores what came from the table.
  abbrev pub stored : (ℕ → CacheEnv) → List Product → Redis → Redis
  stored env [] redis = redis
  stored env (p ∷ ps) redis = stored (λ n. env (suc n)) ps (set_product (env 0) p redis)

  unfoldable pub completed :
      (ℕ → CacheEnv) → World → List Product → Result (List Product) → World × Result (List Product)
  unfolding set_product
  completed env w found (err e) = (w, err e)
  completed env w found (ok ps) = (record w { redis = stored env ps w.redis }, ok (found ++ ps))

  -- `GetByIDs` after the first loop.
  unfoldable pub combined :
      (ℕ → CacheEnv) → RowsFault → World → List Product × List ℕ → World × Result (List Product)
  unfolding Product.get_by_ids completed
  combined env fault w (found, []) = (w, ok found)
  combined env fault w (found, id ∷ ids) =
      completed env w found (Product.get_by_ids fault (id ∷ ids) w.rows)

  unfoldable pub get_by_ids :
      (ℕ → CacheEnv) → RowsFault → List ℕ → World → World × Result (List Product)
  unfolding gather combined
  get_by_ids env fault [] w = (w, ok [])
  get_by_ids env fault (id ∷ ids) w = combined env fault w (gather env (id ∷ ids) w.redis)

  -- `Create`, which leaves the cache alone.
  unfoldable pub created : World → Result (Table × Product) → World × Result Product
  created w (err e) = (w, err e)
  created w (ok (rows, p)) = (record w { rows = rows }, ok p)

  unfoldable pub create : Fault → ℕ → Option Product → World → World × Result Product
  unfolding Product.create created
  create fault fresh p w = created w (Product.create fault fresh p w.rows)

  -- The end of the operations that change a row: on success its key is removed.
  unfoldable pub changed : Fault → ℕ → World → Result Table → World × Result (Unit {0})
  unfolding invalidate_product
  changed del id w (err e) = (w, err e)
  changed del id w (ok rows) =
      (record { rows = rows; redis = invalidate_product del id w.redis }, ok tt)

  unfoldable pub update : Fault → Fault → Product → World → World × Result (Unit {0})
  unfolding Product.update changed
  update exec del p w = changed del p.id w (Product.update exec (some p) w.rows)

  unfoldable pub delete_product : Fault → Fault → ℕ → World → World × Result (Unit {0})
  unfolding Product.delete changed
  delete_product exec del id w = changed del id w (Product.delete exec id w.rows)

  unfoldable pub reserve_stock : Fault → Fault → ℕ → ℤ → World → World × Result (Unit {0})
  unfolding Product.reserve_stock changed
  reserve_stock exec del id q w = changed del id w (Product.reserve_stock exec id q w.rows)

  unfoldable pub release_stock : Fault → Fault → ℕ → ℤ → World → World × Result (Unit {0})
  unfolding Product.release_stock changed
  release_stock exec del id q w = changed del id w (Product.release_stock exec id q w.rows)

  unfoldable pub confirm_stock : Fault → Fault → ℕ → ℤ → World → World × Result (Unit {0})
  unfolding Product.confirm_stock changed
  confirm_stock exec del id q w = changed del id w (Product.confirm_stock exec id q w.rows)

  -- `Search` after a miss.
  unfoldable pub searched :
      CacheEnv → String → World → Result (List Product) → World × Result (List Product)
  unfolding set
  searched env key w (err e) = (w, err e)
  searched env key w (ok ps) = (
    record w {
      redis = kept w.redis (set search_json env.set env.written key ps search_ttl w.redis);
    },
    ok ps,
  )

  unfoldable pub found_or :
      World → World × Result (List Product) → Option (List Product) → World × Result (List Product)
  found_or w rest (some ps) = (w, ok ps)
  found_or w rest none = rest

  unfoldable pub search :
      CacheEnv → RowsFault → String → String → ℤ → ℤ → World → World × Result (List Product)
  unfolding search_key get Search.search searched found_or
  search env fault query category limit offset w =
      let key = search_key query category limit offset in
      found_or w (searched env key w (Search.search texts fault query category limit offset w.rows))
        (hit (get search_json env.get env.read key w.redis))
