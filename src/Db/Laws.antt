-- ===== src/Db/Laws.antt =====
-- What statements keep: predicates on rows, keys, and the rows that a condition does not fit.
use golang_gin.Prelude.{
  ℕ, ◌≡◌, refl, ap, Bool, true, false, ◌&&◌, Option, none, some, List, [], ◌∷◌, map, if◌then◌else◌,
  Bool-cases, ==_iff, All, inl, inr, arith, ◌==◌, ◌⊎◌,
}
use golang_gin.Errors.{internal, GoError, caused, Result, ok, err, Fault, Result-cases}
use golang_gin.Db.{
  update_where, count_where, find_where, checks_where, Commit, committed, rolled_back, lost,
  with_tx,
}

module _ {ℓ κ} {A : Type ℓ} (P : A → Type κ) (p : A → Bool) (f : A → A) where
  -- A predicate that the assignment keeps on the rows of the condition is kept on the table.
  pub All-update_where :
      ((r : A) → p r ≡ true → P r → P (f r))
      → (rows : List A) → All P rows
      → All P (update_where p f rows)
  All-update_where keep [] h = h
  All-update_where keep (r ∷ rs) h = elim (Bool-cases (p r)) [
    | inl e ↦ rw e (keep r e h.0, All-update_where keep rs h.1)
    | inr e ↦ rw e (h.0, All-update_where keep rs h.1)
  ]

  -- Constraints that hold of each row that is written do not stop a statement.
  pub checks_where-true :
      (c : A → Bool)
      → ((r : A) → p r ≡ true → P r → c (f r) ≡ true)
      → (rows : List A) → All P rows
      → checks_where c p f rows ≡ true
  checks_where-true c keep [] h = refl
  checks_where-true c keep (r ∷ rs) h = elim (Bool-cases (p r)) [
    | inl e ↦ rw (e, keep r e h.0) (checks_where-true c keep rs h.1)
    | inr e ↦ rw e (checks_where-true c keep rs h.1)
  ]

module _ {ℓ} {A : Type ℓ} (p : A → Bool) (f : A → A) where
  -- With no row that fits, the table is unchanged.
  pub update_where_none : (rows : List A) → count_where p rows ≡ 0 → update_where p f rows ≡ rows
  update_where_none [] h = refl
  update_where_none (r ∷ rs) h = elim (Bool-cases (p r)) [
    | inl e ↦ absurd (absurd_suc e h)
    | inr e ↦ rw e (ap (◌∷◌ r) (update_where_none rs (rw e at h)))
  ]
    where
      absurd_suc : p r ≡ true → count_where p (r ∷ rs) ≡ 0 → ⊥
      absurd_suc e h' = ground arith

  pub map-update_where {κ} :
      {B : Type κ} (k : A → B)
      → ((r : A) → k (f r) ≡ k r)
      → (rows : List A) → map k (update_where p f rows) ≡ map k rows
  map-update_where k same [] = refl
  map-update_where k same (r ∷ rs) = elim (Bool-cases (p r)) [
    | inl e ↦ rw (e, same r, map-update_where k same rs)
    | inr e ↦ rw (e, map-update_where k same rs)
  ]

-- Tables with a primary key.
module _ {ℓ} {A : Type ℓ} (key : A → ℕ) where
  abbrev pub find_key : ℕ → List A → Option A
  find_key id rows = find_where (λ r. key r == id) rows

  -- No two rows have one key.
  abbrev pub Keyed : List A → Type ℓ
  Keyed [] = Unit
  Keyed (r ∷ rs) = (find_key (key r) rs ≡ none) × Keyed rs

  -- `WHERE key = id AND c`
  abbrev pub by_key : ℕ → (A → Bool) → A → Bool
  by_key id c r = (key r == id) && c r

  module _ (id : ℕ) (c : A → Bool) (f : A → A) (same : (r : A) → key (f r) ≡ key r) where
    pub find_key-update_ne :
        (j : ℕ)
        → (j == id) ≡ false
        → (rows : List A) → find_key j (update_where (by_key id c) f rows) ≡ find_key j rows
    find_key-update_ne j h [] = refl
    find_key-update_ne j h (r ∷ rs) = ground (arith, same r, find_key-update_ne j h rs)

    pub update-absent :
        (rows : List A) → find_key id rows ≡ none → update_where (by_key id c) f rows ≡ rows
    update-absent [] h = refl
    update-absent (r ∷ rs) h = ground (arith, update-absent rs)

    pub find_key-update :
        (rows : List A)
        → Keyed rows
        → (r : A) → find_key id rows ≡ some r
        → find_key id (update_where (by_key id c) f rows) ≡ some (if c r then f r else r)
    find_key-update [] k r h = cc
    find_key-update (x ∷ xs) k r h = elim (Bool-cases (key x == id)) [
      | inl e ↦ ground (arith, same x)
      | inr e ↦ ground (arith, find_key-update xs k.1 r (ground arith))
    ]

    pub count-absent :
        (rows : List A) → find_key id rows ≡ none → count_where (by_key id c) rows ≡ 0
    count-absent [] h = refl
    count-absent (r ∷ rs) h = ground (arith, count-absent rs)

    pub count-by_key :
        (rows : List A)
        → Keyed rows
        → (r : A) → find_key id rows ≡ some r
        → count_where (by_key id c) rows ≡ (if c r then 1 else 0)
    count-by_key [] k r h = cc
    count-by_key (x ∷ xs) k r h = elim (Bool-cases (key x == id)) [
      | inl e ↦
          let absent : find_key id xs ≡ none = rw (← (==_iff (key x) id).0 e) k.0 in
          ground (arith, count-absent xs absent)
      | inr e ↦ ground (arith, count-by_key xs k.1 r (ground arith))
    ]

  -- Statements that assign no key keep the keys apart.
  module _ (p : A → Bool) (f : A → A) (same : (r : A) → key (f r) ≡ key r) where
    -- A key that is not there is not there afterwards.
    pub find_key-update_none :
        (j : ℕ) (rows : List A) → find_key j rows ≡ none → find_key j (update_where p f rows) ≡ none
    find_key-update_none j [] h = refl
    find_key-update_none j (r ∷ rs) h = ground (arith, same r, find_key-update_none j rs)

    -- The row of a key is assigned if the condition fits it.
    pub find_key-update_where :
        (j : ℕ) (rows : List A) (r : A)
        → find_key j rows ≡ some r
        → find_key j (update_where p f rows) ≡ some (if p r then f r else r)
    find_key-update_where j [] r h = cc
    find_key-update_where j (x ∷ xs) r h = elim (Bool-cases (key x == j)) [
      | inl e ↦ ground (arith, same x)
      | inr e ↦ ground (arith, same x, find_key-update_where j xs r (ground arith))
    ]

    kept : (r : A) → key (if p r then f r else r) ≡ key r
    kept r = ground (arith, same r)

    pub Keyed-update : (rows : List A) → Keyed rows → Keyed (update_where p f rows)
    Keyed-update [] k = tt
    Keyed-update (r ∷ rs) k =
        (rw (kept r) (find_key-update_none (key r) rs k.0), Keyed-update rs k.1)

-- A transaction leaves the state as it was and reports an error, or its callback succeeded and the
-- state is the callback's, whether or not the answer of the commit arrived.
module _ {ℓ κ} {S : Type ℓ} {A : Type κ} (fn : S → Result (S × A)) (s : S) where
  abbrev pub Outcome : S × Result A → Type (ℓ ⊔ κ)
  Outcome r =
      ((r.0 ≡ s) × (x : GoError) × (r.1 ≡ err x))
      ⊎ ((s' : S) × (a : A) × (fn s ≡ ok (s', a)) × (r.0 ≡ s'))

  pub with_tx-Outcome : (begin : Fault) (commit : Commit) → Outcome (with_tx begin commit fn s)
  unfolding with_tx
  with_tx-Outcome (some e) commit =
      inl (refl, caused internal "failed to begin transaction" e, refl)
  with_tx-Outcome none committed = elim (Result-cases (fn s)) [
    | inl (x, e) ↦ rw e (inl (refl, x, refl))
    | inr ((s', a), e) ↦ rw e (inr (s', a, refl, refl))
  ]
  with_tx-Outcome none (rolled_back c) = elim (Result-cases (fn s)) [
    | inl (x, e) ↦ rw e (inl (refl, x, refl))
    | inr ((s', a), e) ↦ rw e (inl (refl, caused internal "failed to commit transaction" c, refl))
  ]
  with_tx-Outcome none (lost c) = elim (Result-cases (fn s)) [
    | inl (x, e) ↦ rw e (inl (refl, x, refl))
    | inr ((s', a), e) ↦ rw e (inr (s', a, refl, refl))
  ]

  -- A transaction that reports success did what its callback did.
  pub with_tx-eq-ok :
      (begin : Fault) (commit : Commit) {a : A}
      → (with_tx begin commit fn s).1 ≡ ok a
      → fn s ≡ ok ((with_tx begin commit fn s).0, a)
  unfolding with_tx
  with_tx-eq-ok begin commit {a} h = ground arith
