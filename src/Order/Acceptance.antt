-- ===== src/Order/Acceptance.antt =====
-- `CreateOrder` as a whole: an order that is accepted is stored, pending, with its payment started;
-- one that is not gives back everything that was reserved for it.
use golang_gin.Prelude.{
  ℕ, ◌≡◌, refl, sym, ap, ◌∙◌, String, Option, none, some, List, [], ◌∷◌, ◌++◌, arith,
}
use mathlib.Core.Path.{subst}
use golang_gin.Prelude.Int.{ℤ, pos, ◌+ℤ◌}
use golang_gin.Prelude.Words.{wrap64}
use golang_gin.Errors.{Result, ok, err, Fault}
use golang_gin.Db.Laws.{with_tx-eq-ok}
use golang_gin.Order.{OrderItem, Order, pending, fill_subtotal, sum_items, validate}
use golang_gin.Order.Table.{Table, CreateEnv, stored_items, insert, create_checked, create}
use golang_gin.Order.Saga.{
  ItemRequest, AccessClaims, ProtoOrder, Message, order_created, Effect, published, Outside, Net,
  publish, compensate_reservations, reserve_items,
}
use golang_gin.Order.Service.{
  World, OrderEnv, to_proto_order, finish_order, start_payment, new_order, store_order,
  reserve_order, prepare_order, create_order,
}
use golang_gin.Order.Compensation.{
  pairs, reservations, releases, rev_onto, rev_onto_split, Reserved, releases-compensate,
  reservations-compensate, reserve_items-Reserved,
}

pairs-fill_subtotal :
    (i : OrderItem) (is : List OrderItem) → pairs (fill_subtotal i ∷ is) ≡ pairs (i ∷ is)
unfolding fill_subtotal
pairs-fill_subtotal i is = ground arith

pairs-sum_items : (total : ℤ) (is : List OrderItem) → pairs (sum_items total is).0 ≡ pairs is
unfolding sum_items
pairs-sum_items total [] = refl
pairs-sum_items total (i ∷ is) = ground (
  arith,
  pairs-fill_subtotal i is,
  pairs-sum_items (wrap64 (total +ℤ (fill_subtotal i).subtotal)) is,
)

pairs-stored_items : (id : ℕ) (is : List OrderItem) → pairs (stored_items id is) ≡ pairs is
pairs-stored_items id [] = refl
pairs-stored_items id (i ∷ is) = ap (◌∷◌ (i.product_id, i.quantity)) (pairs-stored_items id is)

pairs-validate : (o o' : Order) → validate o ≡ ok o' → pairs o'.items ≡ pairs o.items
unfolding validate
pairs-validate o o' h = ground (arith, pairs-sum_items (pos 0) o.items)

insert-eq-ok :
    (env : CreateEnv) (o o' : Order) (rows rows' : Table)
    → insert env o rows ≡ ok (rows', o')
    → (rows' ≡ o' ∷ rows) × (o'.status ≡ pending) × (o'.items ≡ stored_items env.fresh o.items)
unfolding insert
insert-eq-ok env o o' rows rows' h = ground arith

create-checks :
    (env : CreateEnv) (o : Order) (rows : Table)
    → create env (some o) rows ≡ create_checked env rows (validate o)
unfolding create
create-checks env o rows = refl

-- What a successful `Create` stores and returns.
Stored : Order → Order → Table → Table × Result Order → Type 0
Stored o o' rows r = (r.0 ≡ o' ∷ rows) × (o'.status ≡ pending) × (pairs o'.items ≡ pairs o.items)

create_checked-Stored :
    (env : CreateEnv) (o o' : Order) (rows : Table) (v : Result Order)
    → validate o ≡ v
    → (create_checked env rows v).1 ≡ ok o'
    → Stored o o' rows (create_checked env rows v)
unfolding Stored
create_checked-Stored env o o' rows (err e) same h = cc
create_checked-Stored env o o' rows (ok o2) same h =
    let (at, status, items) =
      insert-eq-ok env o2 o' rows _ (with_tx-eq-ok (insert env o2) rows env.begin env.commit h) in
    (
      at,
      status,
      ap pairs items ∙ (pairs-stored_items env.fresh o2.items ∙ pairs-validate o o2 same),
    )

create-Stored :
    (env : CreateEnv) (o o' : Order) (rows : Table)
    → (create env (some o) rows).1 ≡ ok o'
    → Stored o o' rows (create env (some o) rows)
create-Stored env o o' rows h =
    subst (Stored o o' rows) (sym (create-checks env o rows))
      (create_checked-Stored env o o' rows (validate o) refl (rw (create-checks env o rows) at h))

module _ {S : Type 0} (out : Outside S) where
  -- What an answer of `CreateOrder` means, from the state before it.
  abbrev pub Answered : Net S → Table → World S × Result ProtoOrder → Type 0
  Answered n rows (w', err e) =
      (taken : List (ℕ × ℤ)) × (reservations w'.net.trace ≡ taken ++ reservations n.trace)
      × (releases w'.net.trace ≡ taken ++ releases n.trace)
  Answered n rows (w', ok p) =
      (o : Order) × (w'.orders ≡ o ∷ rows)
      × (o.status ≡ pending)
      × (p ≡ to_proto_order out o)
      × (reservations w'.net.trace ≡ rev_onto (pairs o.items) (reservations n.trace))
      × (releases w'.net.trace ≡ releases n.trace)
      × (id : ℕ) × (t : List Effect) × (w'.net.trace ≡ published id (order_created o) none ∷ t)

  -- The net, when all items are reserved and none is released.
  abbrev AllReserved : Net S → List OrderItem → Net S → Type 0
  AllReserved n items n' =
      (reservations n'.trace ≡ rev_onto (pairs items) (reservations n.trace))
      × (releases n'.trace ≡ releases n.trace)

  compensated :
      (reason : String) (n : Net S) (items : List OrderItem) (n' : Net S)
      → AllReserved n items n'
      → (taken : List (ℕ × ℤ)) × (reservations (compensate_reservations out reason items n').trace
          ≡ taken ++ reservations n.trace)
        × (releases (compensate_reservations out reason items n').trace ≡ taken ++ releases n.trace)
  compensated reason n items n' (a, b) = (
    rev_onto (pairs items) [],
    reservations-compensate out reason items n'
        ∙ (a ∙ rev_onto_split (pairs items) (reservations n.trace)),
    releases-compensate out reason items n'
        ∙ (ap (rev_onto (pairs items)) b ∙ rev_onto_split (pairs items) (releases n.trace)),
  )

  publish-trace :
      (m : Message) (n n' : Net S) (f : Fault)
      → publish out m n ≡ (n', f)
      → n'.trace ≡ published (out.event_id n.tries) m f ∷ n.trace
  unfolding publish
  publish-trace m n n' f h = ground arith

  finish_order-Answered :
      (env : OrderEnv) (n : Net S) (rows : Table) (items : List OrderItem) (o : Order) (w : World S)
      → AllReserved n items w.net
      → pairs o.items ≡ pairs items
      → w.orders ≡ o ∷ rows
      → o.status ≡ pending
      → (r : Net S × Fault) → publish out (order_created o) w.net ≡ r
      → Answered n rows (finish_order out env items o w r)
  unfolding finish_order
  finish_order-Answered env n rows items o w (a, b) same at status (n', none) is =
      let after = publish-trace (order_created o) w.net n' none is in
      (
        o,
        at,
        status,
        refl,
        ap reservations after ∙ (a ∙ ap (λ l. rev_onto l (reservations n.trace)) (sym same)),
        ap releases after ∙ b,
        out.event_id w.net.tries,
        w.net.trace,
        after,
      )
  finish_order-Answered env n rows items o w (a, b) same at status (n', some e) is =
      let after = publish-trace (order_created o) w.net n' (some e) is in
      compensated "publish_failed" n items n' (ap reservations after ∙ a, ap releases after ∙ b)

  start_payment-Answered :
      (env : OrderEnv) (n n' : Net S) (rows : Table) (items : List OrderItem) (o : Order)
      → AllReserved n items n'
      → pairs o.items ≡ pairs items
      → (r : Table × Result Order) → ((o' : Order) → r.1 ≡ ok o' → Stored o o' rows r)
      → Answered n rows (start_payment out env items n' r)
  unfolding start_payment Stored
  start_payment-Answered env n n' rows items o all same (orders, err e) stored =
      compensated "order_persist_failed" n items n' all
  start_payment-Answered env n n' rows items o all same (orders, ok o') stored =
      let (at, status, kept) = stored o' refl in
      finish_order-Answered env n rows items o' (record { net = n'; orders = orders }) all
        (kept ∙ same) at status (publish out (order_created o') n') refl

  pairs-new_order :
      (user : ℕ) (items : List OrderItem) → pairs (new_order out user items).items ≡ pairs items
  unfolding new_order
  pairs-new_order user items = pairs-sum_items (pos 0) items

  store_order-Answered :
      (env : OrderEnv) (user : ℕ) (items : List OrderItem) (n : Net S) (rows : Table)
      (r : Net S × Result (List OrderItem))
      → Reserved out [] items n r
      → Answered n rows (store_order out env user items rows r)
  unfolding store_order
  store_order-Answered env user items n rows (n', err e) (taken, a, b) = (
    rev_onto (pairs taken) [],
    a ∙ rev_onto_split (pairs taken) (reservations n.trace),
    b ∙ rev_onto_split (pairs taken) (releases n.trace),
  )
  store_order-Answered env user items n rows (n', ok all) (e, a, b) =
      subst
        (λ l.
          Answered n rows
            (start_payment out env l n' (create env.insert (some (new_order out user items)) rows)))
        (sym e)
        (start_payment-Answered env n n' rows items (new_order out user items) (a, b)
          (pairs-new_order user items) (create env.insert (some (new_order out user items)) rows)
          (λ o' h. create-Stored env.insert (new_order out user items) o' rows h))

  -- `CreateOrder`, whatever the request, the product service, the database and the broker do. If it
  -- answers with an order, that order is stored as pending in front of the others, exactly its items
  -- were reserved, no release was published, and the last thing done was to publish it as created.
  -- If it answers with an error, the releases that it tried to publish are exactly the reservations
  -- that it made, in the same order: the saga is compensated.
  pub create_order-Answered :
      (env : OrderEnv) (claims : Option AccessClaims) (request : Option (List (Option ItemRequest)))
      (w : World S)
      → Answered w.net w.orders (create_order out env claims request w)
  unfolding create_order
  create_order-Answered env claims request w = go (prepare_order out request claims w.net.stock)
    where
      go : (r : Result (ℕ × List OrderItem)) → Answered w.net w.orders (reserve_order out env w r)
      go (err e) = ([], refl, refl)
      go (ok (user, items)) =
          store_order-Answered env user items w.net w.orders (reserve_items out [] items w.net)
            (reserve_items-Reserved out [] items w.net)
