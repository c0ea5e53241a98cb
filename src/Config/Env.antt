-- ===== src/Config/Env.antt =====
-- pkg/env: variables of the environment, as texts and as values.
use text.Mathlib.Text.{◌==◌ as str_eq}
use Prim.Native.String.{◌++◌ as str_append}
use golang_gin.Prelude.{String, Bool, if◌then◌else◌}
use golang_gin.Prelude.Int.{ℤ}
use golang_gin.Errors.{foreign, message, Result, ok, err}

-- The environment after the file `.env` is read, and the parsers of the standard library: `Getenv`,
-- `Atoi`, `ParseBool` and `ParseDuration`.
pub record Env : Type 0 where
  pub getenv : String → String
  pub atoi : String → Result ℤ
  pub parse_bool : String → Result Bool
  pub parse_duration : String → Result ℤ

-- A parsed value, or the error with the key in front.
abbrev pub parsed {ℓ} : {A : Type ℓ} → String → String → Result A → Result A
parsed text key (err e) =
    err (foreign (str_append text (str_append key (str_append ": " (message e)))))
parsed text key (ok a) = ok a

module _ (env : Env) where
  unfoldable pub string : String → String → String
  string key fallback = if str_eq (env.getenv key) "" then fallback else env.getenv key

  unfoldable pub int : String → ℤ → Result ℤ
  unfolding message
  int key fallback =
      if str_eq (env.getenv key) ""
      then ok fallback
      else parsed "invalid value for " key (env.atoi (env.getenv key))

  unfoldable pub bool : String → Bool → Result Bool
  unfolding message
  bool key fallback =
      if str_eq (env.getenv key) ""
      then ok fallback
      else parsed "invalid boolean value for " key (env.parse_bool (env.getenv key))

  unfoldable pub duration : String → ℤ → Result ℤ
  unfolding message
  duration key fallback =
      if str_eq (env.getenv key) ""
      then ok fallback
      else parsed "invalid duration for " key (env.parse_duration (env.getenv key))

  unfoldable pub require : String → Result String
  require key =
      if str_eq (env.getenv key) ""
      then err
          (foreign (str_append "required environment variable " (str_append key " is not set")))
      else ok (env.getenv key)
