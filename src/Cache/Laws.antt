-- ===== src/Cache/Laws.antt =====
-- What a key of Redis holds after `Set` and `Delete`, and keys of two namespaces.
use text.Mathlib.Text.{◌==◌ as str_eq}
use text.Mathlib.TextEquality.{eq_iff}
use text.Mathlib.TextPositions.{eq_refl}
use golang_gin.Prelude.{
  ℕ, ◌+◌, ◌≡◌, refl, String, Bool, true, false, Option, none, some, [], ◌∷◌, ltb, Bool-cases,
  Option-cases, inl, inr, arith, All,
}
use golang_gin.Errors.{Result, ok, Fault, Result-cases}
use golang_gin.Db.{find_where}
use golang_gin.Cache.{Json, Entry, Redis, is_live, removed, get, set}

-- What is removed leaves the rest as it was.
pub removed-All :
    (P : Entry → Type 0) (key : String) (redis : Redis)
    → All P redis
    → All (λ e. P e × (str_eq e.key key ≡ false)) (removed key redis)
removed-All P key [] all = tt
removed-All P key (e ∷ es) all = elim (Bool-cases (str_eq e.key key)) [
  | inl is ↦ rw is (removed-All P key es all.1)
  | inr is ↦ rw is ((all.0, is), removed-All P key es all.1)
]

-- What a live search finds is an entry of the key.
pub find_where-All :
    (P : Entry → Type 0) (now : ℕ) (key : String) (redis : Redis) (e : Entry)
    → All P redis
    → find_where (is_live now key) redis ≡ some e
    → P e × (e.key ≡ key)
find_where-All P now key [] e all h = absurd (ground arith)
find_where-All P now key (x ∷ xs) e all h = elim (Bool-cases (is_live now key x)) [
  | inl is ↦
      let same : x ≡ e = ground arith in
      let here : str_eq x.key key ≡ true = ground arith in
      rw (← same) (all.0, (eq_iff x.key key).0 here)
  | inr is ↦ find_where-All P now key xs e all.1 (rw is at h)
]

module _ {ℓ} {A : Type ℓ} (json : Json A) where
  -- A hit is the value of a live entry.
  pub get-eq-ok :
      (fault : Fault) (now : ℕ) (key : String) (redis : Redis) (a : A)
      → get json fault now key redis ≡ ok (some a)
      → (e : Entry) × (find_where (is_live now key) redis ≡ some e) × (json.unmarshal e.text ≡ ok a)
  unfolding get
  get-eq-ok fault now key redis a h = elim (Option-cases (find_where (is_live now key) redis)) [
    | inl is ↦ absurd (ground (arith, is))
    | inr (e, is) ↦ elim (Result-cases (json.unmarshal e.text)) [
      | inl (x, bad) ↦ absurd (ground (arith, is, bad))
      | inr (b, good) ↦ let same : b ≡ a = ground (arith, is, good) in (e, is, rw same at good)
    ]
  ]

  pub set-eq-ok :
      (fault : Fault) (now : ℕ) (key : String) (value : A) (ttl : ℕ) (redis redis' : Redis)
      → set json fault now key value ttl redis ≡ ok redis'
      → (text : String) × (json.marshal value ≡ ok text)
        × (redis' ≡ record { key = key; text = text; deadline = now + ttl } ∷ removed key redis)
  unfolding set
  set-eq-ok fault now key value ttl redis redis' h = elim (Result-cases (json.marshal value)) [
    | inl (e, is) ↦ absurd (ground (arith, is))
    | inr (text, is) ↦ (text, is, ground (arith, is))
  ]

find_where-removed :
    (now : ℕ) (key other : String) (redis : Redis)
    → str_eq other key ≡ false
    → find_where (is_live now key) (removed other redis) ≡ find_where (is_live now key) redis
find_where-removed now key other [] ne = refl
find_where-removed now key other (e ∷ es) ne = elim (Bool-cases (str_eq e.key other)) [
  | inl is ↦
      let same = (eq_iff e.key other).0 is in
      let miss : str_eq e.key key ≡ false = rw same ne in
      rw (is, miss) (find_where-removed now key other es ne)
  | inr is ↦ rw (is, find_where-removed now key other es ne) refl
]

-- A key that was removed is not there.
pub find_where-removed-none :
    (now : ℕ) (key : String) (redis : Redis)
    → find_where (is_live now key) (removed key redis) ≡ none
find_where-removed-none now key [] = refl
find_where-removed-none now key (e ∷ es) = elim (Bool-cases (str_eq e.key key)) [
  | inl is ↦ rw is (find_where-removed-none now key es)
  | inr is ↦ rw (is, is) (find_where-removed-none now key es)
]

-- What a key gives while the value under it lives, and afterwards.
abbrev pub IsHit {ℓ} : {A : Type ℓ} → Bool → A → Result (Option A) → Type ℓ
IsHit true value r = r ≡ ok (some value)
IsHit false value r = r ≡ ok none

pub get-set-IsHit {ℓ} :
    {A : Type ℓ} (json : Json A) (fault : Fault) (now : ℕ) (key : String) (value : A) (ttl : ℕ)
    (redis redis' : Redis)
    → ((text : String) → json.marshal value ≡ ok text → json.unmarshal text ≡ ok value)
    → set json fault now key value ttl redis ≡ ok redis'
    → (later : ℕ) → IsHit (ltb later (now + ttl)) value (get json none later key redis')
unfolding get set
get-set-IsHit json fault now key value ttl redis redis' back h later =
    let (text, made, is) = set-eq-ok json fault now key value ttl redis redis' h in
    let full : str_eq key "" ≡ false = ground arith in
    let here : str_eq key key ≡ true = eq_refl key in
    elim (Bool-cases (ltb later (now + ttl))) [
      | inl live ↦ rw (live, is, full, here, live, back text made) refl
      | inr dead ↦ rw (dead, is, full, here, dead, find_where-removed-none later key redis) refl
    ]

-- After a `Set` that succeeded, with a JSON that gives the value back, `Get` of the key finds the
-- value until its time to live is over and nothing from then on, if Redis can be read; every other
-- key gives what it gave before.
pub get-set {ℓ} :
    {A : Type ℓ} (json : Json A) (fault : Fault) (now : ℕ) (key : String) (value : A) (ttl : ℕ)
    (redis redis' : Redis)
    → ((text : String) → json.marshal value ≡ ok text → json.unmarshal text ≡ ok value)
    → set json fault now key value ttl redis ≡ ok redis'
    → (later : ℕ) (other : String) → str_eq key other ≡ false
    → IsHit (ltb later (now + ttl)) value (get json none later key redis')
      × (get json none later other redis' ≡ get json none later other redis)
unfolding get
get-set json fault now key value ttl redis redis' back h later other ne =
    let (text, made, is) = set-eq-ok json fault now key value ttl redis redis' h in
    (
      get-set-IsHit json fault now key value ttl redis redis' back h later,
      rw (is, ne, find_where-removed later other key redis ne) refl,
    )
