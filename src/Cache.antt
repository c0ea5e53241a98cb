-- ===== src/Cache.antt =====
-- pkg/cache: values as JSON under text keys in Redis, each up to a deadline. The client is not nil,
-- as set-up has it; JSON is a parameter.
pub mod Laws
use text.Mathlib.Text.{◌==◌ as str_eq}
use Prim.Native.String.{◌++◌ as str_append}
use golang_gin.Prelude.{
  ℕ, ◌+◌, String, Bool, ◌&&◌, not, Option, none, some, List, [], ◌∷◌, if◌then◌else◌, ltb,
}
use golang_gin.Errors.{
  invalid_input, internal, caused, Result, ok, err, ◌>>=◌, ◌>>◌, guard, Fault, check,
}
use golang_gin.Db.{find_where}

-- `json.Marshal` and `json.Unmarshal` at a type.
pub record Json {ℓ} (A : Type ℓ) : Type ℓ where
  pub marshal : A → Result String
  pub unmarshal : String → Result A

pub record Entry : Type 0 where
  pub key : String
  pub text : String
  pub deadline : ℕ

abbrev pub Redis : Type 0
Redis = List Entry

-- What `GET` sees at the time `now`.
abbrev pub is_live : ℕ → String → Entry → Bool
is_live now key e = str_eq e.key key && ltb now e.deadline

-- `DEL` of a key.
abbrev pub removed : String → Redis → Redis
removed key [] = []
removed key (e ∷ es) = if str_eq e.key key then removed key es else e ∷ removed key es

-- `KeyBuilder.Build`: the parts after the namespace, with ":" between them.
abbrev pub build : String → List String → String
build namespace [] = namespace
build namespace (part ∷ parts) = str_append namespace (str_append ":" (build part parts))

module _ {ℓ} {A : Type ℓ} (json : Json A) where
  -- The end of `Get`.
  abbrev pub decoded : Result A → Result (Option A)
  decoded (err e) = err (caused internal "failed to unmarshal cached value" e)
  decoded (ok a) = ok (some a)

  abbrev pub read : Option Entry → Result (Option A)
  read none = ok none
  read (some e) = decoded (json.unmarshal e.text)

  -- `Get`; no value and no error is a miss.
  unfoldable pub get : Fault → ℕ → String → Redis → Result (Option A)
  get fault now key redis = do
    guard (not (str_eq key "")) invalid_input "cache key is empty"
    check fault internal "failed to read from cache"
    read (find_where (is_live now key) redis)

  -- The text of a value that `Set` stores.
  abbrev pub encoded : Result String → Result String
  encoded (err e) = err (caused internal "failed to marshal value for cache" e)
  encoded (ok text) = ok text

  -- `Set` at the time `now`.
  unfoldable pub set : Fault → ℕ → String → A → ℕ → Redis → Result Redis
  set fault now key value ttl redis = do
    guard (not (str_eq key "")) invalid_input "cache key is empty"
    guard (ltb 0 ttl) invalid_input "cache ttl must be greater than zero"
    text ← encoded (json.marshal value)
    check fault internal "failed to write to cache"
    ok (record { key = key; text = text; deadline = now + ttl } ∷ removed key redis)

-- `Delete` of one key.
unfoldable pub delete : Fault → String → Redis → Result Redis
delete fault key redis = do
  check fault internal "failed to delete cache keys"
  ok (removed key redis)
