-- ===== src/User/Rotation.antt =====
-- A refresh token that was revoked, under the statements on the table.
use text.Mathlib.Text.{◌==◌ as str_eq}
use text.Mathlib.TextEquality.{eq_iff}
use golang_gin.Prelude.{
  ℕ, ◌≡◌, refl, String, true, ◌||◌, none, some, List, ◌∷◌, if◌then◌else◌, ◌==◌, ==-refl, Bool-cases,
  Option-cases, inl, inr, arith,
}
use golang_gin.Errors.{ok, Fault}
use golang_gin.Db.{update_where, find_where, exec_insert}
use golang_gin.Db.Finds.{find_where-update_where, find_where-weaker}
use golang_gin.User.{User, RefreshToken}
use golang_gin.User.Tokens.{
  Table, inserted, create, has_hash, get_by_token_hash, revoked_row, is_open, revoke,
}

-- The row of a hash is revoked.
abbrev pub IsSpent : String → Table → Type 0
IsSpent hash rows =
    (t : RefreshToken) × (find_where (has_hash hash) rows ≡ some t) × (t.revoked ≡ true)

pub get_by_token_hash-eq-ok :
    (fault : Fault) (hash : String) (rows : Table) (t : RefreshToken)
    → get_by_token_hash fault hash rows ≡ ok t
    → find_where (has_hash hash) rows ≡ some t
unfolding get_by_token_hash
get_by_token_hash-eq-ok fault hash rows t h = ground arith

revoke-eq-ok :
    (fault : Fault) (id : ℕ) (rows rows' : Table)
    → revoke fault id rows ≡ ok rows'
    → rows' ≡ update_where (is_open id) revoked_row rows
unfolding revoke
revoke-eq-ok fault id rows rows' h = ground arith

-- The revocation of the row of a hash spends it.
pub revoke-spends :
    (fault : Fault) (hash : String) (rows rows' : Table) (t : RefreshToken)
    → find_where (has_hash hash) rows ≡ some t
    → revoke fault t.id rows ≡ ok rows'
    → IsSpent hash rows'
revoke-spends fault hash rows rows' t found h =
    let here =
      find_where-update_where (has_hash hash) (is_open t.id) revoked_row (λ r. refl) rows t found in
    rw (revoke-eq-ok fault t.id rows rows' h)
      (if is_open t.id t then revoked_row t else t, here, ground (arith, ==-refl t.id))

-- Any revocation keeps a spent hash spent.
pub revoke-IsSpent :
    (fault : Fault) (id : ℕ) (hash : String) (rows rows' : Table)
    → IsSpent hash rows
    → revoke fault id rows ≡ ok rows'
    → IsSpent hash rows'
revoke-IsSpent fault id hash rows rows' (t, found, is) h =
    let here =
      find_where-update_where (has_hash hash) (is_open id) revoked_row (λ r. refl) rows t found in
    rw (revoke-eq-ok fault id rows rows' h)
      (if is_open id t then revoked_row t else t, here, ground arith)

create-eq-ok :
    (fault : Fault) (now fresh : ℕ) (users : List User) (t : RefreshToken) (rows rows' : Table)
    → create fault now fresh users (some t) rows ≡ ok rows'
    → (rows' ≡ inserted fresh t ∷ rows)
      × (find_where (λ r. r.id == fresh || str_eq r.token_hash t.token_hash) rows ≡ none)
unfolding create exec_insert
create-eq-ok fault now fresh users t rows rows' h =
    elim (Option-cases (find_where (λ r. r.id == fresh || str_eq r.token_hash t.token_hash) rows)) [
      | inl is ↦ (ground (arith, is), is)
      | inr (r, is) ↦ absurd (ground (arith, is))
    ]

-- No new token takes the place of a spent one.
pub create-IsSpent :
    (fault : Fault) (now fresh : ℕ) (users : List User) (t : RefreshToken) (hash : String)
    (rows rows' : Table)
    → IsSpent hash rows
    → create fault now fresh users (some t) rows ≡ ok rows'
    → IsSpent hash rows'
create-IsSpent fault now fresh users t hash rows rows' (old, found, is) h =
    let (made, alone) = create-eq-ok fault now fresh users t rows rows' h in
    elim (Bool-cases (str_eq t.token_hash hash)) [
      | inl same ↦
          let hashes : t.token_hash ≡ hash = (eq_iff t.token_hash hash).0 same in
          absurd (
            find_where-weaker (has_hash hash)
              (λ r. r.id == fresh || str_eq r.token_hash t.token_hash)
              (λ r e. rw hashes (ground (arith, e))) rows old found alone)
      | inr other ↦ rw made (old, rw other found, is)
    ]

-- A spent token is refused in every way.
pub redeemed_before :
    (fault : Fault) (hash : String) (rows : Table) (t : RefreshToken)
    → IsSpent hash rows
    → get_by_token_hash fault hash rows ≡ ok t
    → t.revoked ≡ true
redeemed_before fault hash rows t (old, found, is) h =
    let now = get_by_token_hash-eq-ok fault hash rows t h in
    let same : old ≡ t = ground arith in rw (← same) is
