-- ===== src/Rpc/Laws.antt =====
-- What the network, the interceptors and the end of a handler do to a call.
use golang_gin.Prelude.{◌≡◌, refl, String, Bool, ◌⊎◌, inl, inr, Option, arith}
use golang_gin.Errors.{GoError, Result, ok, err}
use golang_gin.Errors.Grpc.{RemoteError, with_status, from_app_error}
use golang_gin.Auth.{AccessClaims}
use golang_gin.Middleware.{Verdict, runs, stops}
use golang_gin.Rpc.{
  Reply, replied, failed, Link, through, unreached, unanswered, handled, decided, transmit,
}

module _ {ℓ κ} {W : Type ℓ} {A : Type κ} where
  -- A call that fails and leaves the state of the service alone.
  abbrev pub IsFailed : W → W × Reply A → Type (ℓ ⊔ κ)
  IsFailed w r = (e : RemoteError) × (r ≡ (w, failed e))

  pub transmit-IsFailed :
      (link : Link) (w : W) (r : W × Reply A) → IsFailed w r → IsFailed w (transmit link w r)
  unfolding transmit
  transmit-IsFailed through w r h = h
  transmit-IsFailed (unreached e) w r h = (e, refl)
  transmit-IsFailed (unanswered e) w r (x, is) = (e, rw is refl)

  pub transmit-eq-replied :
      (link : Link) (w w' : W) (r : W × Reply A) (a : A)
      → transmit link w r ≡ (w', replied a)
      → r ≡ (w', replied a)
  unfolding transmit
  transmit-eq-replied through w w' r a h = h
  transmit-eq-replied (unreached e) w w' r a h = absurd (ground arith)
  transmit-eq-replied (unanswered e) w w' r a h = absurd (ground arith)

  pub transmit-state :
      (link : Link) (w : W) (r : W × Reply A)
      → ((transmit link w r).0 ≡ w) ⊎ ((transmit link w r).0 ≡ r.0)
  unfolding transmit
  transmit-state through w r = inr refl
  transmit-state (unreached e) w r = inl refl
  transmit-state (unanswered e) w r = inr refl

  pub decided-IsFailed :
      (v : Verdict) (w : W) (h : Option AccessClaims → W × Reply A)
      → ((c : Option AccessClaims) → IsFailed w (h c))
      → IsFailed w (decided v w h)
  unfolding decided
  decided-IsFailed (stops st) w h f = (with_status st, refl)
  decided-IsFailed (runs c) w h f = f c

  pub decided-eq-replied :
      (v : Verdict) (w w' : W) (h : Option AccessClaims → W × Reply A) (a : A)
      → decided v w h ≡ (w', replied a)
      → (c : Option AccessClaims) × (h c ≡ (w', replied a))
  unfolding decided
  decided-eq-replied (stops st) w w' h a is = absurd (ground arith)
  decided-eq-replied (runs c) w w' h a is = (c, is)

  pub decided-state :
      (v : Verdict) (w : W) (h : Option AccessClaims → W × Reply A)
      → ((decided v w h).0 ≡ w) ⊎ ((c : Option AccessClaims) × ((decided v w h).0 ≡ (h c).0))
  unfolding decided
  decided-state (stops st) w h = inl refl
  decided-state (runs c) w h = inr (c, refl)

  pub handled-IsFailed :
      (details_ok : Bool) (origin : String) (w : W) (r : W × Result A) (e : GoError)
      → r ≡ (w, err e)
      → IsFailed w (handled details_ok origin r)
  unfolding handled
  handled-IsFailed details_ok origin w r e is =
      (with_status (from_app_error details_ok e origin), rw is refl)

  pub handled-eq-replied :
      (details_ok : Bool) (origin : String) (w : W) (r : W × Result A) (a : A)
      → handled details_ok origin r ≡ (w, replied a)
      → r ≡ (w, ok a)
  unfolding handled
  handled-eq-replied details_ok origin w (v, ok b) a is = ground arith
  handled-eq-replied details_ok origin w (v, err e) a is = absurd (ground arith)

  pub handled-state :
      (details_ok : Bool) (origin : String) (r : W × Result A)
      → (handled details_ok origin r).0 ≡ r.0
  unfolding handled
  handled-state details_ok origin (w, ok a) = refl
  handled-state details_ok origin (w, err e) = refl
