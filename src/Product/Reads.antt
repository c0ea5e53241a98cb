-- ===== src/Product/Reads.antt =====
-- What the cached repository reads, against what the repository itself would read.
use golang_gin.Prelude.{
  ℕ, ◌≡◌, refl, sym, ap, ◌∙◌, String, false, Option, none, some, List, [], ◌∷◌, ◌++◌, ◌==◌, All,
  Option-cases, inl, inr,
}
use golang_gin.Prelude.Int.{ℤ}
use golang_gin.Errors.{Result, ok, err, Fault, Result-cases}
use golang_gin.Db.{RowsFault}
use golang_gin.Db.Laws.{find_key, Keyed}
use golang_gin.Cache.{get}
use golang_gin.Product.{Product, Table}
use golang_gin.Product
use golang_gin.Product.Search
use golang_gin.Product.Cached.{
  Deps, World, CacheEnv, hit, search_key, get_product, fetched, looked_up, get_by_id, completed,
  combined, gather, get_by_ids, created, create, changed, update, delete_product, reserve_stock,
  release_stock, confirm_stock, searched, found_or, search,
}
use golang_gin.Product.Fresh.{IsSound, get_product-row}
use golang_gin.Product.Traffic.{
  Call, reads, reads_many, searches, creates, updates, deletes, reserves, releases, confirms,
  Clears, writes, all_writes, serve, run,
}
use golang_gin.Product.Coherence.{run-IsCoherent}
use golang_gin.Product.Ledger
use golang_gin.Product.Ledger.{Write, apply, after}

run-append :
    (ws vs : List Write) (rows : Table)
    → Ledger.run (ws ++ vs) rows ≡ Ledger.run vs (Ledger.run ws rows)
run-append [] vs rows = refl
run-append (w ∷ ws) vs rows = run-append ws vs (after (apply w rows) rows)

module _ (deps : Deps) where
  fetched-rows :
      (env : CacheEnv) (w : World) (r : Result Product) → (fetched deps env w r).0.rows ≡ w.rows
  unfolding fetched
  fetched-rows env w (err e) = refl
  fetched-rows env w (ok p) = refl

  looked_up-rows :
      (env : CacheEnv) (select : Fault) (id : ℕ) (w : World) (o : Option Product)
      → (looked_up deps env select id w o).0.rows ≡ w.rows
  unfolding looked_up
  looked_up-rows env select id w (some p) = refl
  looked_up-rows env select id w none = fetched-rows env w (Product.get_by_id select id w.rows)

  combined-rows :
      (env : ℕ → CacheEnv) (fault : RowsFault) (w : World) (found : List Product) (missing : List ℕ)
      → (combined deps env fault w (found, missing)).0.rows ≡ w.rows
  unfolding combined completed
  combined-rows env fault w found [] = refl
  combined-rows env fault w found (id ∷ ids) =
      elim (Result-cases (Product.get_by_ids fault (id ∷ ids) w.rows)) [
        | inl (e, is) ↦ rw is refl
        | inr (ps, is) ↦ rw is refl
      ]

  search-rows :
      (env : CacheEnv) (fault : RowsFault) (query category : String) (limit offset : ℤ) (w : World)
      → (search deps env fault query category limit offset w).0.rows ≡ w.rows
  unfolding search found_or searched
  search-rows env fault query category limit offset w =
      let key = search_key deps query category limit offset in
      elim (Option-cases (hit (get deps.search_json env.get env.read key w.redis))) [
        | inr (ps, is) ↦ rw is refl
        | inl is ↦
            elim (Result-cases
              (Search.search deps.texts fault query category limit offset w.rows)) [
                | inl (e, bad) ↦ rw (is, bad) refl
                | inr (ps, good) ↦ rw (is, good) refl
              ]
      ]

  changed-rows :
      (del : Fault) (id : ℕ) (w : World) (r : Result Table)
      → (changed deps del id w r).0.rows ≡ after r w.rows
  unfolding changed
  changed-rows del id w (err e) = refl
  changed-rows del id w (ok rows) = refl

  created-rows :
      (w : World) (r : Result (Table × Product))
      → (created deps w r).0.rows ≡ after (Ledger.created r) w.rows
  unfolding created
  created-rows w (err e) = refl
  created-rows w (ok (rows, p)) = refl

  serve-rows : (c : Call) (w : World) → (serve deps c w).rows ≡ Ledger.run (writes c) w.rows
  unfolding serve get_by_id get_by_ids create update delete_product reserve_stock release_stock
      confirm_stock apply
  serve-rows (reads env select id) w =
      looked_up-rows env select id w (get_product deps env id w.redis)
  serve-rows (reads_many env fault []) w = refl
  serve-rows (reads_many env fault (id ∷ ids)) w =
      let (found, missing) = gather deps env (id ∷ ids) w.redis in
      combined-rows env fault w found missing
  serve-rows (searches env fault query category limit offset) w =
      search-rows env fault query category limit offset w
  serve-rows (creates fault fresh p) w = created-rows w (Product.create fault fresh p w.rows)
  serve-rows (updates exec del p) w = changed-rows del p.id w (Product.update exec (some p) w.rows)
  serve-rows (deletes exec del id) w = changed-rows del id w (Product.delete exec id w.rows)
  serve-rows (reserves exec del id q) w =
      changed-rows del id w (Product.reserve_stock exec id q w.rows)
  serve-rows (releases exec del id q) w =
      changed-rows del id w (Product.release_stock exec id q w.rows)
  serve-rows (confirms exec del id q) w =
      changed-rows del id w (Product.confirm_stock exec id q w.rows)

  pub run-rows :
      (cs : List Call) (w : World) → (run deps cs w).rows ≡ Ledger.run (all_writes cs) w.rows
  run-rows [] w = refl
  run-rows (c ∷ cs) w =
      run-rows cs (serve deps c w)
      ∙ (ap (Ledger.run (all_writes cs)) (serve-rows c w)
          ∙ sym (run-append (writes c) (all_writes cs) w.rows))

  looked_up-row :
      (env : CacheEnv) (id : ℕ) (w : World) (o : Option Product)
      → (id == 0) ≡ false
      → ((p : Product) → o ≡ some p → find_key (λ r. r.id) id w.rows ≡ some p)
      → (looked_up deps env none id w o).1 ≡ Product.get_by_id none id w.rows
  unfolding looked_up fetched Product.get_by_id
  looked_up-row env id w (some p) nonzero row = rw (nonzero, row p refl) refl
  looked_up-row env id w none nonzero row = elim (Result-cases (Product.get_by_id none id w.rows)) [
    | inl (e, is) ↦ rw is refl
    | inr (p, is) ↦ rw is refl
  ]

-- The cache is not seen: after any sequence of calls of the cached repository that starts with no
-- cached entry and with no id twice in the table, whatever else fails as long as the invalidations
-- reach Redis, `GetByID` of an id that is not nil answers, where the table can be read, what the
-- repository alone answers on the table that the same writes leave.
pub get_by_id-run :
    (deps : Deps)
    → IsSound deps
    → (cs : List Call) → All Clears cs
    → (rows : Table) → Keyed (λ r. r.id) rows
    → (env : CacheEnv) (id : ℕ) → (id == 0) ≡ false
    → (get_by_id deps env none id (run deps cs (record { rows = rows; redis = [] }))).1
      ≡ Product.get_by_id none id (Ledger.run (all_writes cs) rows)
unfolding get_by_id
get_by_id-run deps sound cs clears rows keyed env id nonzero =
    let w = run deps cs (record { rows = rows; redis = [] }) in
    let (still, fresh) =
      run-IsCoherent deps sound cs (record { rows = rows; redis = [] }) clears (keyed, tt) in
    rw (← run-rows deps cs (record { rows = rows; redis = [] })) (
      looked_up-row deps env id w (get_product deps env id w.redis) nonzero
        (λ p is. get_product-row deps sound env id w.rows w.redis p fresh is))
