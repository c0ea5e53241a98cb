-- ===== src/Messaging/Outcomes.antt =====
-- What holds when a sequence of steps returns without an error.
use golang_gin.Prelude.{◌≡◌, refl, ap, String, none, some, arith}
use golang_gin.Errors.{Kind, Result, ok, err, Fault, check}
use golang_gin.Broker.Script.{Script, ◌>>=◌, go_on, pure, attempt, wrapping, rewrap}
use golang_gin.Messaging.Routes.{Keeps}

-- What holds of the result and of the state when a script returns without an error.
pub record Leads {ℓ κ} {B : Type ℓ} {A : Type κ} (script : Script B A) (R : A → B → Type 0)
    : Type (ℓ ⊔ κ) where
  pub leads : (b b' : B) (a : A) → script b ≡ (b', ok a) → R a b'

check-eq-ok :
    (f : Fault) (kind : Kind) (text : String) (x : Unit {0}) → check f kind text ≡ ok x → f ≡ none
check-eq-ok none kind text x h = refl
check-eq-ok (some e) kind text x h = absurd (ground arith)

rewrap-eq-ok {κ} :
    {A : Type κ} (kind : Kind) (text : String) (r : Result A) (a : A)
    → rewrap kind text r ≡ ok a
    → r ≡ ok a
rewrap-eq-ok kind text (err e) a h = absurd (ground arith)
rewrap-eq-ok kind text (ok x) a h = h

module _ {ℓ} {B : Type ℓ} where
  go_on-Leads {κ μ} :
      {A : Type κ} {C : Type μ} (r : B × Result A) (next : A → Script B C) (R : C → B → Type 0)
      (b' : B) (c : C)
      → ((a : A) → Leads (next a) R)
      → go_on r next ≡ (b', ok c)
      → R c b'
  go_on-Leads (b, err e) next R b' c l h = absurd (ground arith)
  go_on-Leads (b, ok a) next R b' c l h = (l a).leads b b' c h

  pub then-Leads {κ μ} :
      {A : Type κ} {C : Type μ} (first : Script B A) (next : A → Script B C) (R : C → B → Type 0)
      → ((a : A) → Leads (next a) R)
      → Leads (first >>= next) R
  unfolding ◌>>=◌
  then-Leads first next R l = record { leads = λ b b' c h. go_on-Leads (first b) next R b' c l h }

  result-Leads {κ μ} :
      {A : Type κ} {C : Type μ} (r : B × Result A) (next : A → Script B C) (Q : A → Type 0)
      (R : C → B → Type 0) (b' : B) (c : C)
      → ((b : B) (a : A) → r ≡ (b, ok a) → Q a)
      → ((a : A) → Q a → Leads (next a) R)
      → go_on r next ≡ (b', ok c)
      → R c b'
  result-Leads (b, err e) next Q R b' c q l h = absurd (ground arith)
  result-Leads (b, ok a) next Q R b' c q l h = (l a (q b a refl)).leads b b' c h

  -- What is known of the first result goes on.
  pub with-Leads {κ μ} :
      {A : Type κ} {C : Type μ} (first : Script B A) (next : A → Script B C) (Q : A → Type 0)
      (R : C → B → Type 0)
      → Leads first (λ a _. Q a)
      → ((a : A) → Q a → Leads (next a) R)
      → Leads (first >>= next) R
  unfolding ◌>>=◌
  with-Leads first next Q R k l = record {
    leads = λ b b' c h. result-Leads (first b) next Q R b' c (λ b1 a is. k.leads b b1 a is) l h;
  }

  go_on-kept {κ μ} :
      {A : Type κ} {C : Type μ} (r : B × Result A) (next : A → Script B C) (P : B → Type 0) (b' : B)
      (c : C)
      → ((b : B) (a : A) → r ≡ (b, ok a) → P b)
      → ((a : A) → Keeps P (next a))
      → go_on r next ≡ (b', ok c)
      → P b'
  go_on-kept (b, err e) next P b' c p l h = absurd (ground arith)
  go_on-kept (b, ok a) next P b' c p l h = let kept = (l a).keeps b (p b a refl) in rw (h) at kept

  -- What the first script leads to and the rest keeps.
  pub kept-Leads {κ μ} :
      {A : Type κ} {C : Type μ} (first : Script B A) (next : A → Script B C) (P : B → Type 0)
      → Leads first (λ _. P)
      → ((a : A) → Keeps P (next a))
      → Leads (first >>= next) (λ _. P)
  unfolding ◌>>=◌
  kept-Leads first next P k l = record {
    leads = λ b b' c h. go_on-kept (first b) next P b' c (λ b1 a is. k.leads b b1 a is) l h;
  }

  pub pure-Leads {κ} :
      {A : Type κ} (a : A) (Q : A → Type 0) → Q a → Leads (pure {B = B} (ok a)) (λ x _. Q x)
  unfolding pure
  pure-Leads a Q q = record {
    leads = λ b b' x h.
        let same : ok a ≡ ok x = ap (λ r. r.1) h in let is : a ≡ x = ground arith in rw (← is) q;
  }

  pub attempt-Leads :
      (call : B → B × Fault) (kind : Kind) (text : String) (P : B → Type 0)
      → ((b : B) → (call b).1 ≡ none → P (call b).0)
      → Leads (attempt call kind text) (λ _. P)
  unfolding attempt
  attempt-Leads call kind text P k = record {
    leads = λ b b' x h.
        let p = k b (check-eq-ok (call b).1 kind text x (ap (λ r. r.1) h)) in
        let is : (call b).0 ≡ b' = ap (λ r. r.0) h in rw is at p;
  }

  pub wrapping-Leads {κ} :
      {A : Type κ} (kind : Kind) (text : String) (script : Script B A) (R : A → B → Type 0)
      → Leads script R
      → Leads (wrapping kind text script) R
  unfolding wrapping
  wrapping-Leads kind text script R k = record {
    leads = λ b b' a h.
        k.leads b b' a
          (λ i. (ap (λ r. r.0) h i, rewrap-eq-ok kind text (script b).1 a (ap (λ r. r.1) h) i));
  }
