-- ===== src/Product/Entries.antt =====
-- What one write enters into the books of a product.
use golang_gin.Prelude.{
  ℕ, ◌≡◌, refl, sym, ap, ◌∙◌, Bool, false, ◌&&◌, Option, none, some, List, [], ◌∷◌, if◌then◌else◌,
  ◌==◌, ==_iff, Bool-cases, inl, inr, arith,
}
use golang_gin.Prelude.Int.{ℤ, pos, ◌+ℤ◌, ◌-ℤ◌, leb_ℤ, ltb_ℤ, int_laws}
use golang_gin.Errors.{GoError, Result, ok, err, Fault}
use golang_gin.Db.{update_where, exec_update, exec_insert}
use golang_gin.Db.Laws.{find_key-update_where}
use golang_gin.Product.{
  Product, Table, create, update, delete, reserve_row, release_row, confirm_row, reserve_stock,
  release_stock, confirm_stock, edited,
}
use golang_gin.Product.Stock.{IsValid}
use golang_gin.Product.Inventory.{
  Inventory, view, change, change_row, Refines, reserve_spec, release_spec, confirm_spec,
  reserve_stock-Refines, release_stock-Refines, confirm_stock-Refines,
}
use golang_gin.Product.Ledger.{
  Write, creation, edition, deletion, reservation, release, confirmation, apply, after, OfOk,
}

-- The quantity, if the write is about the product and succeeded.
abbrev counted : ℕ → ℕ → ℤ → Result Table → ℤ
counted id j q (ok rows) = if id == j then q else pos 0
counted id j q (err e) = pos 0

-- What one write reserves, gives back and sells of the product `id`.
abbrev pub reserved_by : ℕ → Write → Result Table → ℤ
reserved_by id (reservation fault j q) result = counted id j q result
reserved_by id _ result = pos 0

abbrev pub released_by : ℕ → Write → Result Table → ℤ
released_by id (release fault j q) result = counted id j q result
released_by id _ result = pos 0

abbrev pub sold_by : ℕ → Write → Result Table → ℤ
sold_by id (confirmation fault j q) result = counted id j q result
sold_by id _ result = pos 0

-- The sum of such quantities over a sequence of writes.
abbrev pub total_of : (Write → Result Table → ℤ) → List Write → Table → ℤ
total_of by [] rows = pos 0
total_of by (w ∷ ws) rows = by w (apply w rows) +ℤ total_of by ws (after (apply w rows) rows)

-- The product `r'` after `r`, when `taken` items were reserved, `given` released and `gone` sold.
pub record IsBooked (taken given gone : ℤ) (r r' : Product) : Type 0 where
  pub reserved : r'.reserved_stock +ℤ given +ℤ gone ≡ r.reserved_stock +ℤ taken
  pub total : r'.total_stock +ℤ gone ≡ r.total_stock

abbrev pub BookedBy : Write → Result Table → ℕ → Product → Product → Type 0
BookedBy w result id =
    IsBooked (reserved_by id w result) (released_by id w result) (sold_by id w result)

abbrev pub Booked : Write → Result Table → Table → ℕ → Product → Type 0
Booked w result rows id r =
    (r' : Product) × (view (after result rows) id ≡ some r') × BookedBy w result id r r'

-- A write that reports an error books nothing.
IsBooked-err : (w : Write) (e : GoError) (id : ℕ) (r : Product) → BookedBy w (err e) id r r
IsBooked-err (creation fault fresh p) e id r = omega int_laws
IsBooked-err _ e id r = omega int_laws

abbrev read : Option Inventory → ℕ → Option Product
read none id = none
read (some m) id = m id

-- The map's operation changes the product of its own id, and leaves the others.
read-change_row :
    (id j : ℕ) (c : Product → Bool) (f : Product → Product) (m m' : Inventory) (r : Product)
    → m id ≡ some r
    → (o : Option Product) → m j ≡ o
    → change_row o j c f m ≡ some m'
    → read (change_row o j c f m) id ≡ some (if id == j then f r else r)
read-change_row id j c f m m' r e none s h = cc
read-change_row id j c f m m' r e (some x) s h = elim (Bool-cases (id == j)) [
  | inl same ↦
      let here : some x ≡ some r = sym s ∙ (ap m (sym ((==_iff id j).0 same)) ∙ e) in ground arith
  | inr other ↦ ground arith
]

module _ (w : Write) (id j : ℕ) (c : Product → Bool) (f : Product → Product) (rows : Table)
    (r : Product) (found : view rows id ≡ some r)
    (moved : (rows' : Table) → BookedBy w (ok rows') id r (if id == j then f r else r)) where
  -- A statement that refines a change of the product `j` books what it moves.
  change-Booked :
      (result : Result Table) (spec : Option Inventory)
      → ((m : Inventory) → spec ≡ some m → change j c f (view rows) ≡ some m)
      → Refines result spec
      → Booked w result rows id r
  change-Booked (err e) spec s h = (r, found, IsBooked-err w e id r)
  change-Booked (ok rows') none s h = absurd h
  change-Booked (ok rows') (some m) s h =
      let is = s m refl in
      (
        (if id == j then f r else r),
        h.1 id
            ∙ (ap (λ o. read o id) (sym is)
                ∙ read-change_row id j c f (view rows) m r found (view rows j) refl is),
        moved rows',
      )

creation-Booked :
    (fault : Fault) (fresh : ℕ) (p : Option Product) (id : ℕ) (rows : Table) (r : Product)
    → view rows id ≡ some r
    → Booked (creation fault fresh p) (apply (creation fault fresh p) rows) rows id r
unfolding apply create exec_insert
creation-Booked fault fresh none id rows r found = (r, found, omega int_laws)
creation-Booked fault fresh (some p) id rows r found = (r, ground arith, omega int_laws)

module _ (id : ℕ) (rows : Table) (r : Product) (found : view rows id ≡ some r) where
  -- A write that succeeds only by assigning rows in a way that moves no stock books nothing.
  idle-Booked :
      (p : Product → Bool) (f : Product → Product)
      → ((x : Product) → (f x).id ≡ x.id)
      → ((x : Product) → IsBooked (pos 0) (pos 0) (pos 0) x (f x))
      → (result : Result Table) → OfOk (λ rows'. rows' ≡ update_where p f rows) result
      → (r' : Product) × (view (after result rows) id ≡ some r')
        × IsBooked (pos 0) (pos 0) (pos 0) r r'
  idle-Booked p f same idle (err e) h = (r, found, omega int_laws)
  idle-Booked p f same idle (ok rows') h = (
    (if p r then f r else r),
    rw h (find_key-update_where (λ x. x.id) p f same id rows r found),
    elim (Bool-cases (p r)) [ inl h ↦ rw h (idle r) | inr h ↦ rw h (omega int_laws) ],
  )

  edition-Booked :
      (fault : Fault) (p : Option Product)
      → Booked (edition fault p) (apply (edition fault p) rows) rows id r
  unfolding apply update exec_update
  edition-Booked fault none = (r, found, omega int_laws)
  edition-Booked fault (some p) =
      idle-Booked (λ x. x.id == p.id) (edited p) (λ x. refl) (λ x. omega int_laws)
        (update fault (some p) rows) (ground arith)

  deletion-Booked :
      (fault : Fault) (j : ℕ) → Booked (deletion fault j) (apply (deletion fault j) rows) rows id r
  unfolding apply delete exec_update
  deletion-Booked fault j =
      idle-Booked (λ x. (x.id == j) && x.is_active) (λ x. record x { is_active = false })
        (λ x. refl) (λ x. omega int_laws) (delete fault j rows) (ground arith)

  reservation-Booked :
      (fault : Fault) (j : ℕ) (q : ℤ)
      → IsValid rows
      → Booked (reservation fault j q) (apply (reservation fault j q) rows) rows id r
  unfolding apply reserve_stock reserve_spec exec_update
  reservation-Booked none j q v =
      change-Booked (reservation none j q) id j
        (λ r. r.is_active && leb_ℤ q (r.total_stock -ℤ r.reserved_stock)) (reserve_row q) rows r
        found
        (λ rows'. elim (Bool-cases (id == j)) [
          | inl h ↦ rw h (omega int_laws)
          | inr h ↦ rw h (omega int_laws)
        ])
        (reserve_stock none j q rows) (reserve_spec j q (view rows)) (λ m h. ground arith)
        (reserve_stock-Refines j q rows v)
  reservation-Booked (some x) j q v = elim (Bool-cases (ltb_ℤ (pos 0) q)) [
    | inl h ↦ rw h (r, found, omega int_laws)
    | inr h ↦ rw h (r, found, omega int_laws)
  ]

  release-Booked :
      (fault : Fault) (j : ℕ) (q : ℤ)
      → IsValid rows
      → Booked (release fault j q) (apply (release fault j q) rows) rows id r
  unfolding apply release_stock release_spec exec_update
  release-Booked none j q v =
      change-Booked (release none j q) id j (λ r. leb_ℤ q r.reserved_stock) (release_row q) rows r
        found
        (λ rows'. elim (Bool-cases (id == j)) [
          | inl h ↦ rw h (omega int_laws)
          | inr h ↦ rw h (omega int_laws)
        ])
        (release_stock none j q rows) (release_spec j q (view rows)) (λ m h. ground arith)
        (release_stock-Refines j q rows v)
  release-Booked (some x) j q v = elim (Bool-cases (ltb_ℤ (pos 0) q)) [
    | inl h ↦ rw h (r, found, omega int_laws)
    | inr h ↦ rw h (r, found, omega int_laws)
  ]

  confirmation-Booked :
      (fault : Fault) (j : ℕ) (q : ℤ)
      → IsValid rows
      → Booked (confirmation fault j q) (apply (confirmation fault j q) rows) rows id r
  unfolding apply confirm_stock confirm_spec exec_update
  confirmation-Booked none j q v =
      change-Booked (confirmation none j q) id j (λ r. leb_ℤ q r.reserved_stock) (confirm_row q)
        rows r found
        (λ rows'. elim (Bool-cases (id == j)) [
          | inl h ↦ rw h (omega int_laws)
          | inr h ↦ rw h (omega int_laws)
        ])
        (confirm_stock none j q rows) (confirm_spec j q (view rows)) (λ m h. ground arith)
        (confirm_stock-Refines j q rows v)
  confirmation-Booked (some x) j q v = elim (Bool-cases (ltb_ℤ (pos 0) q)) [
    | inl h ↦ rw h (r, found, omega int_laws)
    | inr h ↦ rw h (r, found, omega int_laws)
  ]

pub step-Booked :
    (w : Write) (id : ℕ) (rows : Table) (r : Product)
    → IsValid rows
    → view rows id ≡ some r
    → Booked w (apply w rows) rows id r
step-Booked (creation fault fresh p) id rows r v found =
    creation-Booked fault fresh p id rows r found
step-Booked (edition fault p) id rows r v found = edition-Booked id rows r found fault p
step-Booked (deletion fault j) id rows r v found = deletion-Booked id rows r found fault j
step-Booked (reservation fault j q) id rows r v found =
    reservation-Booked id rows r found fault j q v
step-Booked (release fault j q) id rows r v found = release-Booked id rows r found fault j q v
step-Booked (confirmation fault j q) id rows r v found =
    confirmation-Booked id rows r found fault j q v
