-- ===== src/Product/Coherence.antt =====
-- Sequences of calls of the cached repository keep the cache coherent with the table.
use golang_gin.Prelude.{
  ℕ, suc, ◌≡◌, refl, sym, String, Bool, true, false, ◌&&◌, Option, none, some, List, [], ◌∷◌, ◌==◌,
  ==_iff, All, All-map, Option-cases, inl, inr, arith, contains,
}
use mathlib.Core.Path.{subst}
use golang_gin.Prelude.Int.{ℤ}
use golang_gin.Errors.{Result, ok, err, Fault, Result-cases}
use golang_gin.Db.{select_where, RowsFault, smooth, query_failed, scan_failed, iteration_failed}
use golang_gin.Db.Finds.{find_where-holds}
use golang_gin.Db.Laws.{find_key, Keyed}
use golang_gin.Cache.{Redis, removed, get, set}
use golang_gin.Cache.Laws.{removed-All, set-eq-ok}
use golang_gin.Product.{Product, Table}
use golang_gin.Product
use golang_gin.Product.Search
use golang_gin.Product.Cached.{
  Deps, World, CacheEnv, hit, search_key, get_product, set_product, fetched, looked_up, get_by_id,
  stored, completed, combined, gather, get_by_ids, created, create, changed, update, delete_product,
  reserve_stock, release_stock, confirm_stock, searched, found_or, search,
}
use golang_gin.Product.Fresh.{
  IsSound, IsFresh, search_key-product_key, set_product-IsFresh, invalidate_product-IsFresh,
}
use golang_gin.Product.Changes.{
  IsChange, update-IsChange, delete-IsChange, reserve_stock-IsChange, release_stock-IsChange,
  confirm_stock-IsChange, create-eq-ok, later, select_where-Keyed,
}
use golang_gin.Product.Traffic.{
  Call, reads, reads_many, searches, creates, updates, deletes, reserves, releases, confirms,
  Clears, serve, run,
}
use text.Mathlib.Text.{◌==◌ as str_eq}

module _ (deps : Deps) (sound : IsSound deps) where
  open deps use {search_json, search_ttl}

  abbrev pub IsCoherent : World → Type 0
  IsCoherent w = Keyed (λ r. r.id) w.rows × All (IsFresh deps sound w.rows) w.redis

  fetched-IsCoherent :
      (env : CacheEnv) (w : World) (r : Result Product)
      → IsCoherent w
      → ((p : Product) → r ≡ ok p → find_key (λ r. r.id) p.id w.rows ≡ some p)
      → IsCoherent (fetched deps env w r).0
  unfolding fetched
  fetched-IsCoherent env w (err e) c row = c
  fetched-IsCoherent env w (ok p) c row =
      (c.0, set_product-IsFresh deps sound env p w.rows w.redis c.1 (row p refl))

  get_by_id-row :
      (select : Fault) (id : ℕ) (rows : Table) (p : Product)
      → Product.get_by_id select id rows ≡ ok p
      → find_key (λ r. r.id) p.id rows ≡ some p
  unfolding Product.get_by_id
  get_by_id-row select id rows p h =
      let found : find_key (λ r. r.id) id rows ≡ some p = ground arith in
      let is = (==_iff p.id id).0 (find_where-holds (λ r. r.id == id) rows p found) in
      subst (λ i. find_key (λ r. r.id) i rows ≡ some p) (sym is) found

  looked_up-IsCoherent :
      (env : CacheEnv) (select : Fault) (id : ℕ) (w : World) (o : Option Product)
      → IsCoherent w
      → IsCoherent (looked_up deps env select id w o).0
  unfolding looked_up
  looked_up-IsCoherent env select id w (some p) c = c
  looked_up-IsCoherent env select id w none c =
      fetched-IsCoherent env w (Product.get_by_id select id w.rows) c
        (get_by_id-row select id w.rows)

  stored-IsFresh :
      (env : ℕ → CacheEnv) (rows : Table) (ps : List Product) (redis : Redis)
      → All (λ p. find_key (λ r. r.id) p.id rows ≡ some p) ps
      → All (IsFresh deps sound rows) redis
      → All (IsFresh deps sound rows) (stored deps env ps redis)
  stored-IsFresh env rows [] redis all fresh = fresh
  stored-IsFresh env rows (p ∷ ps) redis all fresh =
      stored-IsFresh (λ n. env (suc n)) rows ps (set_product deps (env 0) p redis) all.1
        (set_product-IsFresh deps sound (env 0) p rows redis fresh all.0)

  get_by_ids-rows :
      (fault : RowsFault) (ids : List ℕ) (rows : Table) (ps : List Product)
      → Keyed (λ r. r.id) rows
      → Product.get_by_ids fault ids rows ≡ ok ps
      → All (λ p. find_key (λ r. r.id) p.id rows ≡ some p) ps
  unfolding Product.get_by_ids
  get_by_ids-rows fault [] rows ps k h = let is : [] ≡ ps = ground arith in rw (← is) tt
  get_by_ids-rows (query_failed e) (id ∷ ids) rows ps k h = absurd (ground arith)
  get_by_ids-rows (scan_failed e) (id ∷ ids) rows ps k h = absurd (ground arith)
  get_by_ids-rows (iteration_failed e) (id ∷ ids) rows ps k h = absurd (ground arith)
  get_by_ids-rows smooth (id ∷ ids) rows ps k h =
      let c : Product → Bool = λ r. contains r.id (id ∷ ids) && r.is_active in
      let is : select_where c rows ≡ ps = ground arith in
      rw (← is) (
        All-map (λ p. (find_key (λ r. r.id) p.id rows ≡ some p) × (c p ≡ true))
          (λ p. find_key (λ r. r.id) p.id rows ≡ some p) (λ p x. x.0) (select_where c rows)
          (select_where-Keyed c rows k))

  combined-IsCoherent :
      (env : ℕ → CacheEnv) (fault : RowsFault) (w : World) (found : List Product) (missing : List ℕ)
      → IsCoherent w
      → IsCoherent (combined deps env fault w (found, missing)).0
  unfolding combined completed
  combined-IsCoherent env fault w found [] c = c
  combined-IsCoherent env fault w found (id ∷ ids) c =
      elim (Result-cases (Product.get_by_ids fault (id ∷ ids) w.rows)) [
        | inl (e, is) ↦ rw is c
        | inr (ps, is) ↦ rw is (
          c.0,
          stored-IsFresh env w.rows ps w.redis (get_by_ids-rows fault (id ∷ ids) w.rows ps c.0 is)
              c.1,
        )
      ]

  get_by_ids-IsCoherent :
      (env : ℕ → CacheEnv) (fault : RowsFault) (ids : List ℕ) (w : World)
      → IsCoherent w
      → IsCoherent (get_by_ids deps env fault ids w).0
  unfolding get_by_ids
  get_by_ids-IsCoherent env fault [] w c = c
  get_by_ids-IsCoherent env fault (id ∷ ids) w c =
      let (found, missing) = gather deps env (id ∷ ids) w.redis in
      combined-IsCoherent env fault w found missing c

  searched-IsCoherent :
      (env : CacheEnv) (query category : String) (limit offset : ℤ) (w : World)
      (r : Result (List Product))
      → IsCoherent w
      → IsCoherent (searched deps env (search_key deps query category limit offset) w r).0
  unfolding searched
  searched-IsCoherent env query category limit offset w (err e) c = c
  searched-IsCoherent env query category limit offset w (ok ps) c =
      let key = search_key deps query category limit offset in
      elim (Result-cases (set search_json env.set env.written key ps search_ttl w.redis)) [
        | inl (e, is) ↦ rw is c
        | inr (redis, is) ↦
            let (text, made, done) =
              set-eq-ok search_json env.set env.written key ps search_ttl w.redis redis is in
            rw (is, done)
              (
                c.0,
                (
                  λ id p same value.
                      absurd
                        (search_key-product_key deps sound query category limit offset id same),
                  All-map (λ e. IsFresh deps sound w.rows e × (str_eq e.key key ≡ false))
                      (IsFresh deps sound w.rows) (λ e h. h.0) (removed key w.redis)
                      (removed-All (IsFresh deps sound w.rows) key w.redis c.1),
                ),
              )
      ]

  search-IsCoherent :
      (env : CacheEnv) (fault : RowsFault) (query category : String) (limit offset : ℤ) (w : World)
      → IsCoherent w
      → IsCoherent (search deps env fault query category limit offset w).0
  unfolding search found_or
  search-IsCoherent env fault query category limit offset w c =
      let key = search_key deps query category limit offset in
      elim (Option-cases (hit (get search_json env.get env.read key w.redis))) [
        | inr (ps, is) ↦ rw is c
        | inl is ↦ rw is (
            searched-IsCoherent env query category limit offset w
              (Search.search deps.texts fault query category limit offset w.rows) c)
      ]

  created-IsCoherent :
      (fault : Fault) (fresh : ℕ) (p : Option Product) (w : World)
      → IsCoherent w
      → IsCoherent (create deps fault fresh p w).0
  unfolding create created
  created-IsCoherent fault fresh p w c = elim (Result-cases (Product.create fault fresh p w.rows)) [
    | inl (e, is) ↦ rw is c
    | inr ((rows, q), is) ↦
        let (ids, grown, alone) = create-eq-ok fault fresh p w.rows rows q is in
        rw (is, grown)
          (
            (rw (← ids) at alone, c.0),
            All-map (IsFresh deps sound w.rows) (IsFresh deps sound (q ∷ w.rows))
                (λ e good id r keys value.
                  later q w.rows id r (rw (← ids) at alone) (good id r keys value))
                w.redis c.1,
          )
  ]

  changed-IsCoherent :
      (id : ℕ) (w : World) (r : Result Table)
      → IsCoherent w
      → ((rows' : Table) → r ≡ ok rows' → IsChange id w.rows rows')
      → IsCoherent (changed deps none id w r).0
  unfolding changed
  changed-IsCoherent id w (err e) c change = c
  changed-IsCoherent id w (ok rows) c change =
      let (elsewhere, keyed) = change rows refl in
      (keyed c.0, invalidate_product-IsFresh deps sound id w.rows rows w.redis elsewhere c.1)

  serve-IsCoherent : (c : Call) (w : World) → Clears c → IsCoherent w → IsCoherent (serve deps c w)
  unfolding serve get_by_id update delete_product reserve_stock release_stock confirm_stock
  serve-IsCoherent (reads env select id) w clears is =
      looked_up-IsCoherent env select id w (get_product deps env id w.redis) is
  serve-IsCoherent (reads_many env fault ids) w clears is = get_by_ids-IsCoherent env fault ids w is
  serve-IsCoherent (searches env fault query category limit offset) w clears is =
      search-IsCoherent env fault query category limit offset w is
  serve-IsCoherent (creates fault fresh p) w clears is = created-IsCoherent fault fresh p w is
  serve-IsCoherent (updates exec del p) w clears is = rw clears (
      changed-IsCoherent p.id w (Product.update exec (some p) w.rows) is
        (update-IsChange exec p w.rows))
  serve-IsCoherent (deletes exec del id) w clears is =
      rw clears (
        changed-IsCoherent id w (Product.delete exec id w.rows) is (delete-IsChange exec id w.rows))
  serve-IsCoherent (reserves exec del id q) w clears is = rw clears (
      changed-IsCoherent id w (Product.reserve_stock exec id q w.rows) is
        (reserve_stock-IsChange exec id q w.rows))
  serve-IsCoherent (releases exec del id q) w clears is = rw clears (
      changed-IsCoherent id w (Product.release_stock exec id q w.rows) is
        (release_stock-IsChange exec id q w.rows))
  serve-IsCoherent (confirms exec del id q) w clears is = rw clears (
      changed-IsCoherent id w (Product.confirm_stock exec id q w.rows) is
        (confirm_stock-IsChange exec id q w.rows))

  pub run-IsCoherent :
      (cs : List Call) (w : World) → All Clears cs → IsCoherent w → IsCoherent (run deps cs w)
  run-IsCoherent [] w clears is = is
  run-IsCoherent (c ∷ cs) w clears is =
      run-IsCoherent cs (serve deps c w) clears.1 (serve-IsCoherent c w clears.0 is)
