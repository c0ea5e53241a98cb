-- ===== src/Order/Compensation.antt =====
-- The compensation of the saga: an order that is not accepted gives back what it reserved.
use golang_gin.Prelude.{ℕ, ◌≡◌, refl, sym, ap, ◌∙◌, String, List, [], ◌∷◌, ◌++◌, ◌⊎◌, inl, inr}
use mathlib.Core.List.{append-nil, append_assoc}
use mathlib.Core.Path.{subst}
use golang_gin.Prelude.Int.{ℤ}
use golang_gin.Errors.{GoError, Result, ok, err, Result-cases}
use golang_gin.Order.{OrderItem}
use golang_gin.Order.Saga.{
  order_created, stock_release, stock_confirm, Effect, reserved, published, Outside, Net,
  compensate_reservations, reserve_item, reserve_items,
}

-- Products and quantities: of items, of the reservations of a trace, and of the releases that it
-- tried to publish.
abbrev pub pairs : List OrderItem → List (ℕ × ℤ)
pairs [] = []
pairs (i ∷ is) = (i.product_id, i.quantity) ∷ pairs is

abbrev pub reservations : List Effect → List (ℕ × ℤ)
reservations [] = []
reservations (reserved id q ∷ t) = (id, q) ∷ reservations t
reservations (published e m f ∷ t) = reservations t

abbrev pub releases : List Effect → List (ℕ × ℤ)
releases [] = []
releases (published e (stock_release id q reason) f ∷ t) = (id, q) ∷ releases t
releases (published e (order_created o) f ∷ t) = releases t
releases (published e (stock_confirm o id q) f ∷ t) = releases t
releases (reserved id q ∷ t) = releases t

-- `xs`, the last first, in front of `acc`.
abbrev pub rev_onto {ℓ} : {A : Type ℓ} → List A → List A → List A
rev_onto [] acc = acc
rev_onto (x ∷ xs) acc = rev_onto xs (x ∷ acc)

pub rev_onto-append {ℓ} :
    {A : Type ℓ} (xs ys acc : List A) → rev_onto (xs ++ ys) acc ≡ rev_onto ys (rev_onto xs acc)
rev_onto-append [] ys acc = refl
rev_onto-append (x ∷ xs) ys acc = rev_onto-append xs ys (x ∷ acc)

pub rev_onto_split {ℓ} : {A : Type ℓ} (xs acc : List A) → rev_onto xs acc ≡ rev_onto xs [] ++ acc
rev_onto_split [] acc = refl
rev_onto_split (x ∷ xs) acc =
    rev_onto_split xs (x ∷ acc)
    ∙ (sym (append_assoc (rev_onto xs []) (x ∷ []) acc)
        ∙ ap (λ l. l ++ acc) (sym (rev_onto_split xs (x ∷ []))))

pairs-append : (xs ys : List OrderItem) → pairs (xs ++ ys) ≡ pairs xs ++ pairs ys
pairs-append [] ys = refl
pairs-append (x ∷ xs) ys = ap (◌∷◌ (x.product_id, x.quantity)) (pairs-append xs ys)

module _ {S : Type 0} (out : Outside S) where
  pub releases-compensate :
      (reason : String) (is : List OrderItem) (n : Net S)
      → releases (compensate_reservations out reason is n).trace
        ≡ rev_onto (pairs is) (releases n.trace)
  unfolding compensate_reservations
  releases-compensate reason [] n = refl
  releases-compensate reason (i ∷ is) n = releases-compensate reason is _

  pub reservations-compensate :
      (reason : String) (is : List OrderItem) (n : Net S)
      → reservations (compensate_reservations out reason is n).trace ≡ reservations n.trace
  unfolding compensate_reservations
  reservations-compensate reason [] n = refl
  reservations-compensate reason (i ∷ is) n = reservations-compensate reason is _

  -- What one reservation adds to the trace.
  reserve_item-trace :
      (i : OrderItem) (n : Net S)
      → (((e : GoError) × ((reserve_item out i n).1 ≡ err e)
            × ((reserve_item out i n).0.trace ≡ n.trace))
          ⊎ (((reserve_item out i n).1 ≡ ok tt)
              × ((reserve_item out i n).0.trace ≡ reserved i.product_id i.quantity ∷ n.trace)))
  unfolding reserve_item
  reserve_item-trace i n =
      elim (Result-cases (out.reserve_stock (out.format i.product_id) i.quantity n.stock).1) [
        | inl (e, h) ↦ rw (h, reserve_item) (inl (e, refl, refl))
        | inr (u, h) ↦ rw (h, reserve_item) (inr (refl, refl))
      ]

  -- What `reserveItems` adds to a trace: all reservations, or some and as many releases.
  abbrev pub Reserved :
      List OrderItem → List OrderItem → Net S → Net S × Result (List OrderItem) → Type 0
  Reserved done is n (n', ok all) =
      (all ≡ done ++ is)
      × (reservations n'.trace ≡ rev_onto (pairs is) (reservations n.trace))
      × (releases n'.trace ≡ releases n.trace)
  Reserved done is n (n', err e) =
      (taken : List OrderItem) × (reservations n'.trace
        ≡ rev_onto (pairs taken) (reservations n.trace))
      × (releases n'.trace ≡ rev_onto (pairs (done ++ taken)) (releases n.trace))

  pub reserve_items_stop :
      (done : List OrderItem) (i : OrderItem) (is : List OrderItem) (n : Net S) (e : GoError)
      → (reserve_item out i n).1 ≡ err e
      → reserve_items out done (i ∷ is) n
        ≡ (compensate_reservations out "reservation_failed" done (reserve_item out i n).0, err e)
  unfolding reserve_items
  reserve_items_stop done i is n e h = rw (h, reserve_items)

  pub reserve_items_go :
      (done : List OrderItem) (i : OrderItem) (is : List OrderItem) (n : Net S)
      → (reserve_item out i n).1 ≡ ok tt
      → reserve_items out done (i ∷ is) n
        ≡ reserve_items out (done ++ i ∷ []) is (reserve_item out i n).0
  unfolding reserve_items
  reserve_items_go done i is n h = rw (h, reserve_items)

  -- After one more reservation.
  Reserved-cons :
      (done : List OrderItem) (i : OrderItem) (is : List OrderItem) (n n1 : Net S)
      (r : Net S × Result (List OrderItem))
      → n1.trace ≡ reserved i.product_id i.quantity ∷ n.trace
      → Reserved (done ++ i ∷ []) is n1 r
      → Reserved done (i ∷ is) n r
  Reserved-cons done i is n n1 (n', ok all) more (e, a, b) = (
    e ∙ append_assoc done (i ∷ []) is,
    a ∙ ap (λ t. rev_onto (pairs is) (reservations t)) more,
    b ∙ ap releases more,
  )
  Reserved-cons done i is n n1 (n', err e) more (taken, a, b) = (
    i ∷ taken,
    a ∙ ap (λ t. rev_onto (pairs taken) (reservations t)) more,
    b
        ∙ (ap (λ l. rev_onto (pairs l) (releases n1.trace)) (append_assoc done (i ∷ []) taken)
            ∙ ap (λ t. rev_onto (pairs (done ++ i ∷ taken)) (releases t)) more),
  )

  pub reserve_items-Reserved :
      (done is : List OrderItem) (n : Net S) → Reserved done is n (reserve_items out done is n)
  unfolding reserve_items
  reserve_items-Reserved done [] n = (sym (append-nil done), refl, refl)
  reserve_items-Reserved done (i ∷ is) n = elim (reserve_item-trace i n) [
    | inl (e, bad, same) ↦
        subst (Reserved done (i ∷ is) n) (sym (reserve_items_stop done i is n e bad)) (
          [],
          reservations-compensate "reservation_failed" done (reserve_item out i n).0
              ∙ ap reservations same,
          releases-compensate "reservation_failed" done (reserve_item out i n).0
              ∙ (ap (λ t. rev_onto (pairs done) (releases t)) same
                  ∙ ap (λ l. rev_onto (pairs l) (releases n.trace)) (sym (append-nil done))),
        )
    | inr (good, more) ↦
        subst (Reserved done (i ∷ is) n) (sym (reserve_items_go done i is n good)) (
          Reserved-cons done i is n (reserve_item out i n).0
            (reserve_items out (done ++ i ∷ []) is (reserve_item out i n).0) more
            (reserve_items-Reserved (done ++ i ∷ []) is (reserve_item out i n).0))
  ]
