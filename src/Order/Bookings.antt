-- ===== src/Order/Bookings.antt =====
-- What `CreateOrder` does to the stock of the product service behind its client.
use golang_gin.Prelude.{
  ℕ, ◌≡◌, refl, ◌∙◌, String, Bool, true, Option, none, some, List, [], ◌∷◌, ◌++◌, ◌==◌,
  if◌then◌else◌, arith,
}
use golang_gin.Prelude.Int.{ℤ, pos, ◌+ℤ◌, int_laws, eq_of_parts, parts_of_eq}
use golang_gin.Errors.{GoError, Result, ok, err, Fault}
use golang_gin.Errors.Grpc.{Status}
use golang_gin.Auth.{AccessClaims}
use golang_gin.Middleware.{Verdict, runs, stops, rate_limit_interceptor, auth_interceptor}
use golang_gin.Rpc.{
  CallEnv, Reply, replied, failed, Link, through, unreached, unanswered, decided, handled, chain,
  transmit,
}
use golang_gin.Product.{Product, Table}
use golang_gin.Product
use golang_gin.Product.Stock.{IsValid}
use golang_gin.Product.Inventory.{view}
use golang_gin.Product.Ledger.{reservation, apply, step-IsValid}
use golang_gin.Product.Entries.{step-Booked}
use golang_gin.Product.Cached.{Deps, World, changed}
use golang_gin.Product.Cached
use golang_gin.Product.Service
use golang_gin.Product.Server.{serve_reserve_stock, call}
use golang_gin.Order.Client.{received, reserve_stock}

-- How many items of a product are in a list of reservations.
abbrev pub taken_of : ℕ → List (ℕ × ℤ) → ℤ
taken_of id [] = pos 0
taken_of id ((j, q) ∷ ts) = taken_of id ts +ℤ (if id == j then q else pos 0)

-- The table after reservations: each product stays, and of its fields on stock only what is reserved
-- grows, by its items in the list.
abbrev pub IsTaken : List (ℕ × ℤ) → Table → Table → Type 0
IsTaken ts rows rows' =
    IsValid rows'
    × ((id : ℕ) (r : Product)
        → view rows id ≡ some r
        → (r' : Product) × (view rows' id ≡ some r')
          × (r'.reserved_stock ≡ r.reserved_stock +ℤ taken_of id ts)
          × (r'.total_stock ≡ r.total_stock))

pub IsTaken-nil : (rows : Table) → IsValid rows → IsTaken [] rows rows
IsTaken-nil rows v = (v, λ id r found. (r, found, eq_of_parts _ _ (omega int_laws), refl))

pub taken_of-append :
    (id : ℕ) (ts us : List (ℕ × ℤ)) → taken_of id (ts ++ us) ≡ taken_of id us +ℤ taken_of id ts
taken_of-append id [] us = eq_of_parts _ _ (omega int_laws)
taken_of-append id ((j, q) ∷ ts) us =
    let rest = parts_of_eq _ _ (taken_of-append id ts us) in
    eq_of_parts _ _ (omega (int_laws, rest))

pub IsTaken-append :
    (ts us : List (ℕ × ℤ)) (a b c : Table)
    → IsTaken us a b
    → IsTaken ts b c
    → IsTaken (ts ++ us) a c
IsTaken-append ts us a b c (v, first) (v', second) = (
  v',
  λ id r found.
      let (x, found', reserved, total) = first id r found in
      let (r', end, reserved', total') = second id x found' in
      (
        r',
        end,
        eq_of_parts _ _ (
            omega (
              int_laws,
              parts_of_eq _ _ reserved,
              parts_of_eq _ _ reserved',
              parts_of_eq _ _ (taken_of-append id ts us),
            )),
        total' ∙ total,
      ),
)

pub reservation-IsTaken :
    (exec : Fault) (id : ℕ) (q : ℤ) (rows rows' : Table)
    → IsValid rows
    → Product.reserve_stock exec id q rows ≡ ok rows'
    → IsTaken ((id, q) ∷ []) rows rows'
unfolding apply
reservation-IsTaken exec id q rows rows' v h =
    let valid = step-IsValid (reservation exec id q) rows v in
    (
      rw h at valid,
      λ j r found.
          let (r', end, booked) = step-Booked (reservation exec id q) j rows r v found in
          let counted = booked.reserved in
          let total = booked.total in
          (
            r',
            rw h at end,
            eq_of_parts _ _ (omega (int_laws, parts_of_eq _ _ (rw h at counted))),
            eq_of_parts _ _ (omega (int_laws, parts_of_eq _ _ total)),
          ),
    )

-- No answer of the network is lost.
abbrev pub IsHeard : Link → Type 0
IsHeard through = Unit
IsHeard (unreached e) = Unit
IsHeard (unanswered e) = ⊥

module _ (exec : Fault) (id : ℕ) (q : ℤ) (w : World) where
  -- A reservation is made when it is reported, and only then.
  abbrev pub Told : World × Result (Unit {0}) → Type 0
  Told (w', ok _) = Product.reserve_stock exec id q w.rows ≡ ok w'.rows
  Told (w', err e) = w'.rows ≡ w.rows

  abbrev Replied : World × Reply (Unit {0}) → Type 0
  Replied (w', replied _) = Product.reserve_stock exec id q w.rows ≡ ok w'.rows
  Replied (w', failed e) = w'.rows ≡ w.rows

  changed-Told :
      (deps : Deps) (del : Fault) (r : Result Table)
      → Product.reserve_stock exec id q w.rows ≡ r
      → Told (changed deps del id w r)
  unfolding changed
  changed-Told deps del (err e) h = refl
  changed-Told deps del (ok rows) h = h

  handled-Replied :
      (details_ok : Bool) (origin : String) (r : World × Result (Unit {0}))
      → Told r
      → Replied (handled details_ok origin r)
  unfolding handled
  handled-Replied details_ok origin (w', ok _) h = h
  handled-Replied details_ok origin (w', err e) h = h

  decided-Replied :
      (v : Verdict) (handler : Option AccessClaims → World × Reply (Unit {0}))
      → ((c : Option AccessClaims) → Replied (handler c))
      → Replied (decided v w handler)
  unfolding decided
  decided-Replied (stops st) handler h = refl
  decided-Replied (runs c) handler h = h c

  received-Told :
      (render : Status → String) (r : World × Reply (Unit {0}))
      → Replied r
      → Told (received render r)
  received-Told render (w', replied _) h = h
  received-Told render (w', failed e) h = h

  transmit-Replied :
      (link : Link) (r : World × Reply (Unit {0}))
      → IsHeard link
      → Replied r
      → Replied (transmit link w r)
  unfolding transmit
  transmit-Replied through r heard h = h
  transmit-Replied (unreached e) r heard h = refl
  transmit-Replied (unanswered e) r heard h = absurd heard

  service-Told :
      (deps : Deps) (parse : String → Option ℕ) (text : String) (del : Fault)
      → parse text ≡ some id
      → Told (Service.reserve_stock deps parse exec del (some (text, q)) w)
  unfolding Service.reserve_stock Service.parse_product_id Cached.reserve_stock
  service-Told deps parse text del is =
      rw is (changed-Told deps del (Product.reserve_stock exec id q w.rows) refl)

  pub Told-err :
      (r : World × Result (Unit {0})) (e : GoError) → r.1 ≡ err e → Told r → r.0.rows ≡ w.rows
  Told-err (w', err e') e is h = h
  Told-err (w', ok _) e is h = absurd (ground arith)

  pub Told-ok :
      (r : World × Result (Unit {0})) (u : Unit {0})
      → r.1 ≡ ok u
      → Told r
      → Product.reserve_stock exec id q w.rows ≡ ok r.0.rows
  Told-ok (w', err e') u is h = absurd (ground arith)
  Told-ok (w', ok _) u is h = h

  pub client-Told :
      (render : Status → String) (deps : Deps) (parse : String → Option ℕ) (text : String)
      (link : Link) (env : CallEnv) (del : Fault)
      → IsHeard link
      → parse text ≡ some id
      → Told (reserve_stock render deps parse link env exec del text q w)
  unfolding reserve_stock serve_reserve_stock call chain
  client-Told render deps parse text link env del heard is =
      let verdict : Verdict =
        rate_limit_interceptor env.allow none "/product.ProductService/ReserveStock" env.caller
          (auth_interceptor true env.tokens (some [])) in
      let service = Service.reserve_stock deps parse exec del (some (text, q)) w in
      let ended = handled env.details_ok "product-service" service in
      received-Told render (transmit link w (decided verdict w (λ _. ended))) (
        transmit-Replied link (decided verdict w (λ _. ended)) heard (
          decided-Replied verdict (λ _. ended)
            λ c.
              handled-Replied env.details_ok "product-service" service
                (service-Told deps parse text del is)))
