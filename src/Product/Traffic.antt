-- ===== src/Product/Traffic.antt =====
-- Sequences of calls of the cached repository, and the writes to the table that they make.
use golang_gin.Prelude.{ℕ, ◌≡◌, String, Option, none, some, List, [], ◌∷◌, ◌++◌}
use golang_gin.Prelude.Int.{ℤ}
use golang_gin.Errors.{Fault}
use golang_gin.Db.{RowsFault}
use golang_gin.Product.{Product}
use golang_gin.Product.Cached.{
  Deps, World, CacheEnv, get_by_id, get_by_ids, create, update, delete_product, reserve_stock,
  release_stock, confirm_stock, search,
}
use golang_gin.Product.Ledger
use golang_gin.Product.Ledger.{Write}

-- A call of the repository with its surroundings. Those of a change are the fault of the statement
-- and that of the invalidation.
pub data Call : Type 0 where
  reads : CacheEnv → Fault → ℕ → Call
  reads_many : (ℕ → CacheEnv) → RowsFault → List ℕ → Call
  searches : CacheEnv → RowsFault → String → String → ℤ → ℤ → Call
  creates : Fault → ℕ → Option Product → Call
  updates : Fault → Fault → Product → Call
  deletes : Fault → Fault → ℕ → Call
  reserves releases confirms : Fault → Fault → ℕ → ℤ → Call

-- The invalidation of the call reaches Redis.
abbrev pub Clears : Call → Type 0
Clears (updates exec del p) = del ≡ none
Clears (deletes exec del id) = del ≡ none
Clears (reserves exec del id q) = del ≡ none
Clears (releases exec del id q) = del ≡ none
Clears (confirms exec del id q) = del ≡ none
Clears _ = Unit {0}

-- The writes of the call to the table.
abbrev pub writes : Call → List Write
writes (creates fault fresh p) = Ledger.creation fault fresh p ∷ []
writes (updates exec del p) = Ledger.edition exec (some p) ∷ []
writes (deletes exec del id) = Ledger.deletion exec id ∷ []
writes (reserves exec del id q) = Ledger.reservation exec id q ∷ []
writes (releases exec del id q) = Ledger.release exec id q ∷ []
writes (confirms exec del id q) = Ledger.confirmation exec id q ∷ []
writes _ = []

abbrev pub all_writes : List Call → List Write
all_writes [] = []
all_writes (c ∷ cs) = writes c ++ all_writes cs

module _ (deps : Deps) where
  unfoldable pub serve : Call → World → World
  unfolding get_by_id get_by_ids search create update delete_product reserve_stock release_stock
      confirm_stock
  serve (reads env select id) w = (get_by_id deps env select id w).0
  serve (reads_many env fault ids) w = (get_by_ids deps env fault ids w).0
  serve (searches env fault query category limit offset) w =
      (search deps env fault query category limit offset w).0
  serve (creates fault fresh p) w = (create deps fault fresh p w).0
  serve (updates exec del p) w = (update deps exec del p w).0
  serve (deletes exec del id) w = (delete_product deps exec del id w).0
  serve (reserves exec del id q) w = (reserve_stock deps exec del id q w).0
  serve (releases exec del id q) w = (release_stock deps exec del id q w).0
  serve (confirms exec del id q) w = (confirm_stock deps exec del id q w).0

  abbrev pub run : List Call → World → World
  run [] w = w
  run (c ∷ cs) w = run cs (serve c w)
