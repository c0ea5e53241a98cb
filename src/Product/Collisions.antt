-- ===== src/Product/Collisions.antt =====
-- Two searches with one key in the cache.
use Prim.Native.String.{◌++◌ as str_append}
use text.Mathlib.TextLemmas.{append_assoc}
use golang_gin.Prelude.{◌+◌, ◌≡◌, refl, sym, ap, ◌∙◌, String, true, none, some, List, [], ◌∷◌, ltb}
use golang_gin.Prelude.Int.{ℤ}
use golang_gin.Errors.{ok}
use golang_gin.Db.{RowsFault}
use golang_gin.Cache.{Redis, build, get, set}
use golang_gin.Cache.Laws.{get-set-IsHit}
use golang_gin.Product.{Product, Table}
use golang_gin.Product.Search
use golang_gin.Product.Cached.{Deps, World, CacheEnv, search_key, searched, found_or, search}

-- The text of two parts of a key.
abbrev pub joined : String → String → String
joined a b = str_append a (str_append ":" b)

module _ (deps : Deps) where
  open deps use {search_json, search_ttl, texts}

  search_key-joined :
      (a b c : String) (limit offset : ℤ)
      → search_key deps (joined b c) a limit offset ≡ search_key deps c (joined a b) limit offset
  unfolding search_key
  search_key-joined a b c limit offset =
      let rest = str_append ":" (build (deps.itoa limit) (deps.itoa offset ∷ [])) in
      ap (λ t. str_append "product-service:search" (str_append ":" t))
        (ap (λ t. str_append a (str_append ":" t))
            (append_assoc b (str_append ":" c) rest ∙ ap (str_append b) (append_assoc ":" c rest))
          ∙ (ap (str_append a) (sym (append_assoc ":" b (str_append ":" (str_append c rest))))
              ∙ sym (append_assoc a (str_append ":" b) (str_append ":" (str_append c rest)))))

  search_miss :
      (query category : String) (limit offset : ℤ) (env : CacheEnv) (fault : RowsFault) (w : World)
      (ps : List Product) (redis : Redis)
      → get search_json env.get env.read (search_key deps query category limit offset) w.redis
        ≡ ok none
      → Search.search texts fault query category limit offset w.rows ≡ ok ps
      → set search_json env.set env.written
          (search_key deps query category limit offset)
          ps
          search_ttl
          w.redis
        ≡ ok redis
      → search deps env fault query category limit offset w ≡ (record w { redis = redis }, ok ps)
  unfolding search found_or searched
  search_miss query category limit offset env fault w ps redis miss answer stored =
      rw (miss, answer, stored) refl

  search_hit :
      (query category : String) (limit offset : ℤ) (env : CacheEnv) (fault : RowsFault) (w : World)
      (ps : List Product)
      → get search_json env.get env.read (search_key deps query category limit offset) w.redis
        ≡ ok (some ps)
      → search deps env fault query category limit offset w ≡ (w, ok ps)
  unfolding search found_or
  search_hit query category limit offset env fault w ps is = rw is refl

  -- The keys of searches do not keep category and query apart: once a search for `c` in the category
  -- `a:b` has stored its answer, a search for `b:c` in the category `a` with the same limit and
  -- offset is answered with it while it lives, whatever the table holds.
  pub search-search :
      (a b c : String) (limit offset : ℤ) (env env' : CacheEnv) (fault fault' : RowsFault)
      (w : World) (ps : List Product) (redis : Redis) (rows : Table)
      → ((text : String) → search_json.marshal ps ≡ ok text → search_json.unmarshal text ≡ ok ps)
      → get search_json env.get env.read (search_key deps c (joined a b) limit offset) w.redis
        ≡ ok none
      → Search.search texts fault c (joined a b) limit offset w.rows ≡ ok ps
      → set search_json env.set env.written
          (search_key deps c (joined a b) limit offset)
          ps
          search_ttl
          w.redis
        ≡ ok redis
      → env'.get ≡ none
      → ltb env'.read (env.written + search_ttl) ≡ true
      → let w' = record (search deps env fault c (joined a b) limit offset w).0 { rows = rows } in
        search deps env' fault' (joined b c) a limit offset w' ≡ (w', ok ps)
  search-search a b c limit offset env env' fault fault' w ps redis rows back miss answer stored
        reads early =
      let key = search_key deps c (joined a b) limit offset in
      let found =
        get-set-IsHit search_json env.set env.written key ps search_ttl w.redis redis back stored
          env'.read in
      let hit =
        search_hit (joined b c) a limit offset env' fault' (record { rows = rows; redis = redis })
          ps (rw (reads, search_key-joined a b c limit offset) (rw early at found)) in
      rw (search_miss c (joined a b) limit offset env fault w ps redis miss answer stored) hit
