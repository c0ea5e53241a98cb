-- ===== src/Payment/Unlinked.antt =====
-- Payments that the gateway does not know, under the statements of the repository.
use golang_gin.Prelude.{
  ℕ, zero, suc, ◌≡◌, refl, ◌∙◌, String, Bool, true, ◌&&◌, none, some, List, [], ◌∷◌, ◌==◌, ◌⊎◌, inl,
  inr, All, Bool-cases, and-true, arith,
}
use golang_gin.Errors.{already_exists, new, GoError, Result, ok, err, ◌>>=◌, Fault, Result-cases}
use golang_gin.Db.{update_where, find_where, checks_where, exec_update, exec_insert}
use golang_gin.Payment.{pending, failed, awaiting, Payment, validate}
use golang_gin.Payment.Table.{
  Table, row_checks, is_pending, fits, violation, text_eq, inserted, create, get_by_authority,
  affected, settled, update_from_pending,
}
use golang_gin.Payment.Service.{stored}

-- A payment that the gateway does not know: it has no authority, and is pending or failed.
pub record IsUnlinked (p : Payment) : Type 0 where
  pub unlinked : p.authority ≡ none
  pub status_is : (p.status ≡ pending) ⊎ (p.status ≡ failed)

module _ {ℓ} {A : Type ℓ} (P : A → Type 0) (c p : A → Bool) (f : A → A)
    (keep : (r : A) → p r ≡ true → c (f r) ≡ true → P r → P (f r)) where
  update_where-All :
      (rows : List A) → checks_where c p f rows ≡ true → All P rows → All P (update_where p f rows)
  update_where-All [] h all = tt
  update_where-All (r ∷ rs) h all = elim (Bool-cases (p r)) [
    | inl t ↦
        let (now, later) = and-true (c (f r)) (checks_where c p f rs) (rw t at h) in
        rw t (keep r t now all.0, update_where-All rs later all.1)
    | inr t ↦ rw t (all.0, update_where-All rs (rw t at h) all.1)
  ]

  exec_update-All :
      (v : GoError) (fault : Fault) (rows rows' : List A) (n : ℕ)
      → exec_update v c fault p f rows ≡ ok (rows', n)
      → All P rows
      → All P rows'
  unfolding exec_update
  exec_update-All v (some e) rows rows' n h all = ground arith
  exec_update-All v none rows rows' n h all = elim (Bool-cases (checks_where c p f rows)) [
    | inl t ↦
        let is : rows' ≡ update_where p f rows = ground arith in rw is (update_where-All rows t all)
    | inr t ↦ absurd (ground arith)
  ]

affected-All :
    (P : Payment → Type 0) (r : Result (Table × ℕ)) (text : String) (missing : GoError)
    (rows : Table)
    → ((rows' : Table) (n : ℕ) → r ≡ ok (rows', n) → All P rows')
    → All P rows
    → All P (stored (affected r text missing) rows)
affected-All P (err e) text missing rows h all = all
affected-All P (ok (rows', zero)) text missing rows h all = all
affected-All P (ok (rows', suc n)) text missing rows h all = h rows' (suc n) refl

-- A payment that a method left behind: to be settled as failed, or to wait.
abbrev pub IsOpen : Payment → Type 0
IsOpen p = (p.status ≡ awaiting) ⊎ ((p.status ≡ pending) ⊎ (p.status ≡ failed))

settled-IsUnlinked :
    (rows : Table) (v : Payment)
    → IsOpen v
    → (r : Payment) → fits rows (settled v r) ≡ true
    → IsUnlinked r
    → IsUnlinked (settled v r)
unfolding fits row_checks
settled-IsUnlinked rows v (inr h) r c u = record { unlinked = u.unlinked; status_is = h }
settled-IsUnlinked rows v (inl h) r c u = absurd (ground arith)

pub update_from_pending-All :
    (fault : Fault) (p : Payment)
    → IsOpen p
    → (rows : Table) → All IsUnlinked rows
    → All IsUnlinked (stored (update_from_pending fault (some p) rows) rows)
unfolding update_from_pending
update_from_pending-All fault p h rows all = go (validate p) (λ v e. ground (arith, validate))
  where
    go :
        (r : Result Payment)
        → ((v : Payment) → r ≡ ok v → v.status ≡ p.status)
        → All IsUnlinked (
            stored
              (r >>= λ v.
                affected
                  (exec_update violation
                    (fits rows)
                    fault
                    (λ r. (r.id == v.id) && is_pending r.status)
                    (settled v)
                    rows)
                  "failed to update payment status"
                  (new already_exists "payment is not in a pending state"))
              rows)
    go (err e) same = all
    go (ok v) same =
        affected-All IsUnlinked
          (exec_update violation (fits rows) fault (λ r. (r.id == v.id) && is_pending r.status)
            (settled v) rows)
          "failed to update payment status" (new already_exists "payment is not in a pending state")
          rows
          (λ rows' n e.
            exec_update-All IsUnlinked (fits rows) (λ r. (r.id == v.id) && is_pending r.status)
              (settled v) (λ r t c u. settled-IsUnlinked rows v (rw (same v refl) h) r c u)
              violation fault rows rows' n e all)
          all

nothing_found :
    (authority : String) (rows : Table)
    → All IsUnlinked rows
    → find_where (λ p. text_eq p.authority (some authority)) rows ≡ none
nothing_found authority [] all = refl
nothing_found authority (p ∷ ps) all = rw (all.0.unlinked) (nothing_found authority ps all.1)

create-eq-ok :
    (fault : Fault) (p p' : Payment) (rows rows' : Table)
    → create fault (some p) rows ≡ ok (rows', p')
    → (p'.status ≡ p.status) × (rows' ≡ inserted p' ∷ rows)
unfolding create validate exec_insert
create-eq-ok fault p p' rows rows' h = ground arith

pub create-IsUnlinked :
    (fault : Fault) (p p' : Payment) (rows rows' : Table)
    → p.status ≡ pending
    → All IsUnlinked rows
    → create fault (some p) rows ≡ ok (rows', p')
    → All IsUnlinked rows' × (p'.status ≡ pending)
create-IsUnlinked fault p p' rows rows' starts all h =
    let (same, is) = create-eq-ok fault p p' rows rows' h in
    rw is ((record { unlinked = refl; status_is = inl (same ∙ starts) }, all), same ∙ starts)

pub get_by_authority-errs :
    (fault : Fault) (authority : String) (rows : Table)
    → All IsUnlinked rows
    → (e : GoError) × (get_by_authority fault authority rows ≡ err e)
unfolding get_by_authority
get_by_authority-errs fault authority rows all =
    let missing = nothing_found authority rows all in
    elim (Result-cases (get_by_authority fault authority rows)) [
      | inl (e, h) ↦ (e, h)
      | inr (p, h) ↦ absurd (ground (arith, missing))
    ]
