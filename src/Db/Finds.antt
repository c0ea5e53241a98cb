-- ===== src/Db/Finds.antt =====
-- Searches in a table that other statements changed.
use golang_gin.Prelude.{
  ℕ, suc, refl, ◌≡◌, ◌≢◌, Bool, true, none, some, List, [], ◌∷◌, if◌then◌else◌, Bool-cases, inl,
  inr, arith,
}
use golang_gin.Db.{update_where, count_where, find_where}

module _ {ℓ} {A : Type ℓ} where
  -- A search by a property that an update keeps finds the same row, changed or not.
  pub find_where-update_where :
      (p q : A → Bool) (f : A → A)
      → ((r : A) → p (f r) ≡ p r)
      → (rows : List A) (r : A) → find_where p rows ≡ some r
      → find_where p (update_where q f rows) ≡ some (if q r then f r else r)
  find_where-update_where p q f same [] r h = absurd (ground arith)
  find_where-update_where p q f same (x ∷ xs) r h =
      ground (arith, same x, find_where-update_where p q f same xs r)

  -- What is found has the property.
  pub find_where-holds :
      (p : A → Bool) (rows : List A) (r : A) → find_where p rows ≡ some r → p r ≡ true
  find_where-holds p [] r h = absurd (ground arith)
  find_where-holds p (x ∷ xs) r h = elim (Bool-cases (p x)) [
    | inl e ↦ let here : x ≡ r = ground arith in rw (← here) e
    | inr e ↦ find_where-holds p xs r (rw e at h)
  ]

  -- A search by a weaker property finds something, too.
  pub find_where-weaker :
      (p q : A → Bool)
      → ((r : A) → p r ≡ true → q r ≡ true)
      → (rows : List A) (r : A) → find_where p rows ≡ some r
      → find_where q rows ≢ none
  find_where-weaker p q weaker [] r h k = ground arith
  find_where-weaker p q weaker (x ∷ xs) r h k = elim (Bool-cases (p x)) [
    | inl e ↦ let t = weaker x e in ground arith
    | inr e ↦ elim (Bool-cases (q x)) [
      | inl t ↦ ground arith
      | inr t ↦ find_where-weaker p q weaker xs r (rw e at h) (rw t at k)
    ]
  ]

  -- A row that is found and meets a condition is counted.
  pub count_where-find_where :
      (p q : A → Bool) (rows : List A) (r : A)
      → find_where p rows ≡ some r
      → q r ≡ true
      → (n : ℕ) × (count_where q rows ≡ suc n)
  count_where-find_where p q [] r h t = absurd (ground arith)
  count_where-find_where p q (x ∷ xs) r h t = elim (Bool-cases (q x)) [
    | inl e ↦ (count_where q xs, rw e refl)
    | inr e ↦ elim (Bool-cases (p x)) [
      | inl here ↦ let is : x ≡ r = ground arith in absurd (ground arith)
      | inr there ↦
          let (n, counted) = count_where-find_where p q xs r (rw there at h) t in (n, rw e counted)
    ]
  ]
