-- ===== src/Product/Changes.antt =====
-- What the statements of the product repository change: the row of one id.
use golang_gin.Prelude.{
  ℕ, ◌≡◌, refl, Bool, true, false, ◌&&◌, Option, none, some, [], ◌∷◌, ◌==◌, ==_iff, ==-refl, All,
  All-map, Bool-cases, Option-cases, inl, inr, arith,
}
use golang_gin.Prelude.Int.{ℤ}
use golang_gin.Errors.{ok, Fault}
use golang_gin.Db.{select_where, update_where, exec_insert, exec_update}
use golang_gin.Db.Finds.{find_where-holds}
use golang_gin.Db.Laws.{find_key, Keyed, find_key-update_where, Keyed-update}
use golang_gin.Product.{
  Product, Table, edited, inserted, can_reserve, holds, reserve_row, release_row, confirm_row,
}
use golang_gin.Product
use golang_gin.Product.Fresh.{IsElsewhere}

-- A change of the row of an id only.
abbrev pub IsChange : ℕ → Table → Table → Type 0
IsChange id rows rows' =
    IsElsewhere id rows rows' × (Keyed (λ r. r.id) rows → Keyed (λ r. r.id) rows')

update_where-IsChange :
    (id : ℕ) (p : Product → Bool) (f : Product → Product)
    → ((r : Product) → p r ≡ true → (r.id == id) ≡ true)
    → ((r : Product) → (f r).id ≡ r.id)
    → (rows : Table) → IsChange id rows (update_where p f rows)
update_where-IsChange id p f only same rows = (elsewhere, Keyed-update (λ r. r.id) p f same rows)
  where
    elsewhere : IsElsewhere id rows (update_where p f rows)
    elsewhere j q ne found =
        let now = find_key-update_where (λ r. r.id) p f same j rows q found in
        let here : (q.id == j) ≡ true = find_where-holds (λ r. r.id == j) rows q found in
        elim (Bool-cases (p q)) [
          | inl is ↦ let there = only q is in absurd (ground arith)
          | inr is ↦ rw is at now
        ]

pub update-IsChange :
    (fault : Fault) (p : Product) (rows rows' : Table)
    → Product.update fault (some p) rows ≡ ok rows'
    → IsChange p.id rows rows'
unfolding Product.update exec_update
update-IsChange fault p rows rows' h =
    let is : rows' ≡ update_where (λ r. r.id == p.id) (edited p) rows = ground arith in
    rw is (update_where-IsChange p.id (λ r. r.id == p.id) (edited p) (λ r e. e) (λ r. refl) rows)

pub delete-IsChange :
    (fault : Fault) (id : ℕ) (rows rows' : Table)
    → Product.delete fault id rows ≡ ok rows'
    → IsChange id rows rows'
unfolding Product.delete exec_update
delete-IsChange fault id rows rows' h =
    let p : Product → Bool = λ r. (r.id == id) && r.is_active in
    let f : Product → Product = λ r. record r { is_active = false } in
    let is : rows' ≡ update_where p f rows = ground arith in
    rw is (update_where-IsChange id p f (λ r e. ground arith) (λ r. refl) rows)

pub reserve_stock-IsChange :
    (fault : Fault) (id : ℕ) (q : ℤ) (rows rows' : Table)
    → Product.reserve_stock fault id q rows ≡ ok rows'
    → IsChange id rows rows'
unfolding Product.reserve_stock exec_update
reserve_stock-IsChange fault id q rows rows' h =
    let is : rows' ≡ update_where (can_reserve id q) (reserve_row q) rows = ground arith in
    rw is (
      update_where-IsChange id (can_reserve id q) (reserve_row q) (λ r e. ground arith) (λ r. refl)
        rows)

pub release_stock-IsChange :
    (fault : Fault) (id : ℕ) (q : ℤ) (rows rows' : Table)
    → Product.release_stock fault id q rows ≡ ok rows'
    → IsChange id rows rows'
unfolding Product.release_stock exec_update
release_stock-IsChange fault id q rows rows' h =
    let is : rows' ≡ update_where (holds id q) (release_row q) rows = ground arith in
    rw is
      (update_where-IsChange id (holds id q) (release_row q) (λ r e. ground arith) (λ r. refl) rows)

pub confirm_stock-IsChange :
    (fault : Fault) (id : ℕ) (q : ℤ) (rows rows' : Table)
    → Product.confirm_stock fault id q rows ≡ ok rows'
    → IsChange id rows rows'
unfolding Product.confirm_stock exec_update
confirm_stock-IsChange fault id q rows rows' h =
    let is : rows' ≡ update_where (holds id q) (confirm_row q) rows = ground arith in
    rw is
      (update_where-IsChange id (holds id q) (confirm_row q) (λ r e. ground arith) (λ r. refl) rows)

-- A new row takes the place of none.
pub create-eq-ok :
    (fault : Fault) (fresh : ℕ) (p : Option Product) (rows rows' : Table) (q : Product)
    → Product.create fault fresh p rows ≡ ok (rows', q)
    → (q.id ≡ fresh) × (rows' ≡ q ∷ rows) × (find_key (λ r. r.id) fresh rows ≡ none)
unfolding Product.create exec_insert
create-eq-ok fault fresh none rows rows' q h = absurd (ground arith)
create-eq-ok fault fresh (some p) rows rows' q h =
    elim (Option-cases (find_key (λ r. r.id) fresh rows)) [
      | inl is ↦
          let made : inserted fresh p ≡ q = ground (arith, is) in
          (rw (← made) refl, ground (arith, is), is)
      | inr (r, is) ↦ absurd (ground (arith, is))
    ]

-- A row that is found is found behind a row of another id.
pub later :
    (r : Product) (rs : Table) (j : ℕ) (p : Product)
    → find_key (λ r. r.id) r.id rs ≡ none
    → find_key (λ r. r.id) j rs ≡ some p
    → find_key (λ r. r.id) j (r ∷ rs) ≡ some p
later r rs j p alone found = elim (Bool-cases (r.id == j)) [
  | inl same ↦
      let ids : r.id ≡ j = (==_iff r.id j).0 same in
      let never : find_key (λ r. r.id) j rs ≡ none = rw ids at alone in absurd (ground arith)
  | inr ne ↦ rw ne found
]

-- The rows of a query, in a table with a key, are those that are found under their ids.
pub select_where-Keyed :
    (c : Product → Bool) (rows : Table)
    → Keyed (λ r. r.id) rows
    → All (λ p. (find_key (λ r. r.id) p.id rows ≡ some p) × (c p ≡ true)) (select_where c rows)
select_where-Keyed c [] k = tt
select_where-Keyed c (r ∷ rs) k =
    let rest =
      All-map (λ p. (find_key (λ r. r.id) p.id rs ≡ some p) × (c p ≡ true))
        (λ p. (find_key (λ r. r.id) p.id (r ∷ rs) ≡ some p) × (c p ≡ true))
        (λ p h. (later r rs p.id p k.0 h.0, h.1)) (select_where c rs)
        (select_where-Keyed c rs k.1) in
    elim (Bool-cases (c r)) [
      | inl is ↦ rw is ((rw (==-refl r.id) refl, is), rest)
      | inr is ↦ rw is rest
    ]
