-- ===== src/Product/Admin.antt =====
-- Who may change products, and what an update answers.
use text.Mathlib.Text.{◌==◌ as str_eq}
use text.Mathlib.TextEquality.{eq_iff}
use golang_gin.Prelude.{
  ℕ, ◌≡◌, refl, sym, ap, ◌∙◌, String, true, false, ◌⊎◌, Option, none, some, ◌==◌, Bool-cases,
  Option-cases, inl, inr, arith,
}
use golang_gin.Errors.{
  unauthenticated, permission_denied, GoError, Result, ok, err, get_kind, Fault, Result-cases,
}
use golang_gin.Auth.{AccessClaims}
use golang_gin.Db.{update_where, exec_update}
use golang_gin.Db.Finds.{find_where-holds}
use golang_gin.Db.Laws.{find_key, find_key-update_where, find_key-update_none}
use golang_gin.Cache.{Redis, get, delete}
use golang_gin.Cache.Laws.{find_where-removed-none}
use golang_gin.Product.{Product, Table, edited}
use golang_gin.Product
use golang_gin.Product.Cached.{
  Deps, World, CacheEnv, product_key, get_product, invalidate_product, fetched, looked_up, changed,
}
use golang_gin.Product.Cached
use golang_gin.Product.Service.{
  CreateRequest, UpdateRequest, UpdateEnv, ProtoProduct, require_admin, parse_product_id,
  to_proto_product, replacement, reread, create_product, update_product, delete_product,
}

-- The caller is no admin, or is not known at all.
abbrev pub IsCommon : Option AccessClaims → Type 0
IsCommon none = Unit
IsCommon (some c) = str_eq c.role "admin" ≡ false

-- A call that is refused and leaves the table and the cache alone.
abbrev pub IsRefused {ℓ} : {A : Type ℓ} → World → World × Result A → Type ℓ
IsRefused w r =
    (e : GoError) × (r ≡ (w, err e))
    × ((get_kind e ≡ unauthenticated) ⊎ (get_kind e ≡ permission_denied))

-- The callers of `CreateProduct`, `UpdateProduct` and `DeleteProduct` who are not admins are refused
-- with an error that says so, and neither the table nor the cache changes, whatever the request asks
-- for.
pub create_product-IsRefused :
    (deps : Deps) (parse : String → Option ℕ) (claims : Option AccessClaims)
    → IsCommon claims
    → (insert : Fault) (fresh : ℕ) (c : CreateRequest) (env : UpdateEnv) (u : UpdateRequest)
      (exec del : Fault) (id : String) (w : World)
    → IsRefused w (create_product deps parse insert fresh claims (some c) w)
      × IsRefused w (update_product deps parse env claims (some u) w)
      × IsRefused w (delete_product deps parse exec del claims (some id) w)
unfolding create_product update_product delete_product require_admin get_kind
create_product-IsRefused deps parse none common insert fresh c env u exec del id w =
    ((_, refl, inl refl), (_, refl, inl refl), (_, refl, inl refl))
create_product-IsRefused deps parse (some a) common insert fresh c env u exec del id w =
    rw common ((_, refl, inr refl), (_, refl, inr refl), (_, refl, inr refl))

update-eq-ok :
    (exec : Fault) (p : Product) (rows rows' : Table)
    → Product.update exec (some p) rows ≡ ok rows'
    → rows' ≡ update_where (λ r. r.id == p.id) (edited p) rows
unfolding Product.update exec_update
update-eq-ok exec p rows rows' h = ground arith

get_by_id-eq-ok :
    (select : Fault) (id : ℕ) (rows : Table) (p : Product)
    → Product.get_by_id select id rows ≡ ok p
    → find_key (λ r. r.id) id rows ≡ some p
unfolding Product.get_by_id
get_by_id-eq-ok select id rows p h = ground arith

-- The row of an updated id was there before.
updated_row :
    (p : Product) (rows : Table) (q : Product)
    → find_key (λ r. r.id) p.id (update_where (λ r. r.id == p.id) (edited p) rows) ≡ some q
    → (old : Product) × (find_key (λ r. r.id) p.id rows ≡ some old) × (q ≡ edited p old)
updated_row p rows q found = elim (Option-cases (find_key (λ r. r.id) p.id rows)) [
  | inl is ↦
      let never =
        find_key-update_none (λ r. r.id) (λ r. r.id == p.id) (edited p) (λ r. refl) p.id rows is in
      absurd (ground arith)
  | inr (old, is) ↦
      let now =
        find_key-update_where (λ r. r.id) (λ r. r.id == p.id) (edited p) (λ r. refl) p.id rows old
          is in
      let same : (old.id == p.id) ≡ true = find_where-holds (λ r. r.id == p.id) rows old is in
      let both : some q ≡ some (edited p old) = sym found ∙ (rw same at now) in
      (old, is, ground arith)
]

module _ (deps : Deps) (parse : String → Option ℕ) where
  -- After an invalidation that reached Redis there is a miss.
  get_product-invalidate_product :
      (env : CacheEnv) (id : ℕ) (redis : Redis)
      → get_product deps env id (invalidate_product deps none id redis) ≡ none
  unfolding get_product get invalidate_product delete
  get_product-invalidate_product env id redis =
      ground (arith, find_where-removed-none env.read (product_key deps id) redis)

  -- What an update is followed by: the product is read from the table.
  reread-eq-ok :
      (env : UpdateEnv) (id : ℕ) (w w' : World) (r : Result Table) (p : ProtoProduct)
      → env.del ≡ none
      → reread deps parse env id (changed deps env.del id w r) ≡ (w', ok p)
      → (rows : Table) × (r ≡ ok rows)
        × (w'.rows ≡ rows)
        × (q : Product) × (find_key (λ r. r.id) id rows ≡ some q)
        × (p ≡ to_proto_product deps parse q)
  unfolding reread changed Cached.get_by_id looked_up fetched
  reread-eq-ok env id w w' (err e) p del h = absurd (ground arith)
  reread-eq-ok env id w w' (ok rows) p del h =
      let miss = get_product-invalidate_product env.cache id w.redis in
      elim (Result-cases (Product.get_by_id env.select id rows)) [
        | inl (e, is) ↦ absurd (ground (arith, is, miss))
        | inr (q, is) ↦ (
          rows,
          refl,
          ap (λ x. x.0.rows) (sym (rw (del, miss, is) at h)),
          q,
          get_by_id-eq-ok env.select id rows q is,
          ground (arith, rw (del, miss, is) at h),
        )
      ]

  -- `UpdateProduct` answers only for an admin. Where the invalidation reaches Redis, the product in
  -- its answer is the row of the id, which was there before: with the fields of the request, and
  -- with the stock that it had, whatever the cache held.
  pub update_product-IsUpdated :
      (env : UpdateEnv) (claims : Option AccessClaims) (r : UpdateRequest) (w w' : World)
      (p : ProtoProduct)
      → env.del ≡ none
      → update_product deps parse env claims (some r) w ≡ (w', ok p)
      → (c : AccessClaims) × (claims ≡ some c)
        × (c.role ≡ "admin")
        × (id : ℕ) × (parse r.id ≡ some id)
        × (old : Product) × (find_key (λ r. r.id) id w.rows ≡ some old)
        × (find_key (λ r. r.id) id w'.rows ≡ some (edited (replacement deps parse id r) old))
        × (p ≡ to_proto_product deps parse (edited (replacement deps parse id r) old))
  unfolding update_product require_admin parse_product_id Cached.update
  update_product-IsUpdated env none r w w' p del h = absurd (ground arith)
  update_product-IsUpdated env (some c) r w w' p del h = elim (Bool-cases (str_eq c.role "admin")) [
    | inr common ↦ absurd (ground (arith, rw common at h))
    | inl boss ↦ elim (Option-cases (parse r.id)) [
      | inl bad ↦ absurd (ground (arith, rw (boss, bad) at h))
      | inr (id, parsed) ↦
          let (rows, done, left, q, found, answered) =
            reread-eq-ok env id w w'
              (Product.update env.exec (some (replacement deps parse id r)) w.rows) p del
              (rw (boss, parsed) at h) in
          let written = update-eq-ok env.exec (replacement deps parse id r) w.rows rows done in
          let (old, before, is) =
            updated_row (replacement deps parse id r) w.rows q (rw written at found) in
          (
            c,
            refl,
            (eq_iff c.role "admin").0 boss,
            id,
            parsed,
            old,
            before,
            (rw left found) ∙ ap some is,
            answered ∙ ap (to_proto_product deps parse) is,
          )
    ]
  ]
