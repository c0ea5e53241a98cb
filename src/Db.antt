-- ===== src/Db.antt =====
-- The statements that the repositories send to PostgreSQL, on a table that is the list of its rows,
-- and `WithTx` of pkg/postgres/postgres.go. Each repository says its conditions, assignments and
-- CHECK constraints; the database runs a statement as a whole or, on a fault, not at all.
pub mod Laws
pub mod Finds
use golang_gin.Prelude.{
  ℕ, suc, ◌+◌, Bool, true, false, ◌&&◌, not, Option, none, some, List, [], ◌∷◌, if◌then◌else◌,
}
use golang_gin.Errors.{internal, GoError, caused, Result, ok, err, ◌>>=◌, ◌>>◌, Fault, check}

abbrev pub is_some {ℓ} : {A : Type ℓ} → Option A → Bool
is_some none = false
is_some (some a) = true

module _ {ℓ} {A : Type ℓ} where
  -- The rows of `UPDATE … SET f WHERE p`.
  abbrev pub update_where : (A → Bool) → (A → A) → List A → List A
  update_where p f [] = []
  update_where p f (r ∷ rs) = (if p r then f r else r) ∷ update_where p f rs

  -- `RowsAffected` of that statement.
  abbrev pub count_where : (A → Bool) → List A → ℕ
  count_where p [] = 0
  count_where p (r ∷ rs) = if p r then suc (count_where p rs) else count_where p rs

  -- `SELECT … WHERE p LIMIT 1`.
  abbrev pub find_where : (A → Bool) → List A → Option A
  find_where p [] = none
  find_where p (r ∷ rs) = if p r then some r else find_where p rs

  -- `SELECT … WHERE p`.
  abbrev pub select_where : (A → Bool) → List A → List A
  select_where p [] = []
  select_where p (r ∷ rs) = if p r then r ∷ select_where p rs else select_where p rs

  -- Whether every row to be written meets the CHECK constraints of the table.
  abbrev pub checks_where : (A → Bool) → (A → Bool) → (A → A) → List A → Bool
  checks_where c p f [] = true
  checks_where c p f (r ∷ rs) = (if p r then c (f r) else true) && checks_where c p f rs

  -- `Exec` of `UPDATE … SET f WHERE p` on a table with the constraints `c`, whose violation is
  -- the error `violation`: the new rows and how many were changed.
  unfoldable pub exec_update :
      GoError → (A → Bool) → Fault → (A → Bool) → (A → A) → List A → Result (List A × ℕ)
  exec_update violation c (some e) p f rows = err e
  exec_update violation c none p f rows =
      if checks_where c p f rows
      then ok (update_where p f rows, count_where p rows)
      else err violation

-- What an `INSERT` reports: the new table, a violated unique index (code 23505), or another error.
pub data Inserted {ℓ} (A : Type ℓ) : Type ℓ where
  done : A → Inserted A
  duplicate : Inserted A
  failed : GoError → Inserted A

-- `INSERT` of the row `r` on a table with the CHECK constraints `c`, whose violation is the error
-- `violation`, and a unique index on which the rows that meet `same` collide with `r`.
unfoldable pub exec_insert {ℓ} :
    {A : Type ℓ} → GoError → (A → Bool) → Fault → (A → Bool) → A → List A → Inserted (List A)
exec_insert violation c (some e) same r rows = failed e
exec_insert violation c none same r rows =
    if not (c r)
    then failed violation
    else if is_some (find_where same rows)
    then duplicate
    else done (r ∷ rows)

-- How a query with several rows goes wrong: as a whole, at the scan of a row, or while iterating.
pub data RowsFault : Type 0 where
  smooth : RowsFault
  query_failed scan_failed iteration_failed : GoError → RowsFault

-- How a transaction that was not rolled back ends: its commit succeeds, fails, or succeeds with
-- its answer lost.
pub data Commit : Type 0 where
  committed : Commit
  rolled_back lost : GoError → Commit

-- `WithTx`: the callback's error rolls back and is returned as it is; so the state is what it was.
unfoldable pub with_tx {ℓ κ} :
    {S : Type ℓ} {A : Type κ} → Fault → Commit → (S → Result (S × A)) → S → S × Result A
with_tx begin commit fn s = elim (check begin internal "failed to begin transaction") [
  | err e ↦ (s, err e)
  | ok _ ↦ elim (fn s) [
    | err e ↦ (s, err e)
    | ok (s', a) ↦ elim commit [
      | committed ↦ (s', ok a)
      | rolled_back e ↦ (s, err (caused internal "failed to commit transaction" e))
      | lost e ↦ (s', err (caused internal "failed to commit transaction" e))
    ]
  ]
]
