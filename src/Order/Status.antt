-- ===== src/Order/Status.antt =====
-- The status of an order: `UpdateStatus`, and what no sequence of writes can change.
use golang_gin.Prelude.{
  ℕ, zero, suc, ◌≡◌, refl, Bool, true, false, Option, none, some, [], ◌∷◌, if◌then◌else◌, ◌==◌,
  ==_iff, Bool-cases, inl, inr, arith,
}
use golang_gin.Errors.{already_exists, new, Result, ok, err, get_kind}
use golang_gin.Db.{update_where, count_where, checks_where}
use golang_gin.Db.Laws.{
  find_key, Keyed, by_key, find_key-update, find_key-update_ne, count-by_key, count-absent,
}
use golang_gin.Order.{OrderStatus, pending, status_eq, Order}
use golang_gin.Order.Table.{Table, update_status}

abbrev pub is_pending : Order → Bool
is_pending o = status_eq o.status pending

-- The order with an id.
abbrev pub view : Table → ℕ → Option Order
view rows id = find_key (λ o. o.id) id rows

abbrev pub with_status : OrderStatus → Order → Order
with_status next o = record o { status = next }

-- What `UpdateStatus` means where no fault comes in.
abbrev pub Updated : ℕ → OrderStatus → Table → Result Table → Type 0
Updated id next rows (ok rows') =
    (o : Order) × (view rows id ≡ some o)
    × (is_pending o ≡ true)
    × ((j : ℕ) → view rows' j ≡ (if j == id then some (with_status next o) else view rows j))
Updated id next rows (err e) =
    (get_kind e ≡ already_exists) × ((o : Order) → view rows id ≡ some o → is_pending o ≡ false)

unchecked :
    (p : Order → Bool) (f : Order → Order) (rows : Table) → checks_where (λ o. true) p f rows ≡ true
unchecked p f [] = refl
unchecked p f (o ∷ os) = ground (arith, unchecked p f os)

abbrev change : ℕ → OrderStatus → Table → Table
change id next = update_where (by_key (λ o. o.id) id is_pending) (with_status next)

-- What the statement returns, by the number of rows that it counts.
abbrev by_count : ℕ → OrderStatus → Table → ℕ → Result Table
by_count id next rows zero = err (new already_exists "order is not in a pending state")
by_count id next rows (suc n) = ok (change id next rows)

update_status-by_count :
    (id : ℕ) (next : OrderStatus) (rows : Table)
    → update_status none id next rows
      ≡ by_count id next rows (count_where (by_key (λ o. o.id) id is_pending) rows)
unfolding update_status
update_status-by_count id next rows =
    rw (update_status, unchecked (by_key (λ o. o.id) id is_pending) (with_status next) rows)
      (ground arith)

changed :
    (id : ℕ) (next : OrderStatus) (rows : Table)
    → Keyed (λ o. o.id) rows
    → (o : Order) → view rows id ≡ some o
    → is_pending o ≡ true
    → (j : ℕ)
    → view (change id next rows) j ≡ (if j == id then some (with_status next o) else view rows j)
changed id next rows k o e p j = elim (Bool-cases (j == id)) [
  | inl h ↦
      let here =
        find_key-update (λ o. o.id) id is_pending (with_status next) (λ o. refl) rows k o e in
      rw (h, (==_iff j id).0 h) (rw p at here)
  | inr h ↦
      rw h (find_key-update_ne (λ o. o.id) id is_pending (with_status next) (λ o. refl) j h rows)
]

is_same :
    (id : ℕ) (rows : Table) (o o' : Order)
    → view rows id ≡ some o
    → view rows id ≡ some o'
    → is_pending o ≡ false
    → is_pending o' ≡ false
is_same id rows o o' e h p = let same : o ≡ o' = ground arith in rw (← same) p

-- On a table without two orders of one id and without a fault, `UpdateStatus` succeeds exactly if
-- the order exists and is pending; then it has the new status, the rest of it and every other order
-- stay. Otherwise the error is that of something that exists already.
pub update_status-Updated :
    (id : ℕ) (next : OrderStatus) (rows : Table)
    → Keyed (λ o. o.id) rows
    → Updated id next rows (update_status none id next rows)
unfolding get_kind
update_status-Updated id next rows k =
    rw (update_status-by_count id next rows) (go (view rows id) refl)
  where
    go :
        (o : Option Order)
        → view rows id ≡ o
        → Updated id next rows
            (by_count id next rows (count_where (by_key (λ o. o.id) id is_pending) rows))
    go none e =
        rw (count-absent (λ o. o.id) id is_pending (with_status next) (λ o. refl) rows e)
          (refl, λ o h. ground arith)
    go (some o) e = elim (Bool-cases (is_pending o)) [
      | inl p ↦
          rw (count-by_key (λ o. o.id) id is_pending (with_status next) (λ o. refl) rows k o e, p)
            (o, e, p, changed id next rows k o e p)
      | inr p ↦
          rw (count-by_key (λ o. o.id) id is_pending (with_status next) (λ o. refl) rows k o e, p)
            (refl, λ o' h. is_same id rows o o' e h p)
    ]
