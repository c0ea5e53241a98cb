-- ===== src/Order/Totals.antt =====
-- The totals of orders: their arithmetic on 64 bits, and the check of `Validate`.
use golang_gin.Prelude.{ℕ, ◌≡◌, refl, ◌∙◌, false, List, [], ◌∷◌, All, arith, ◌≢◌}
use golang_gin.Prelude.Int.{ℤ, pos, ◌+ℤ◌, ◌*ℤ◌, ◌≤ℤ◌, eqb_ℤ-refl, eq_of_parts, int_laws, +ℤ_assoc}
use golang_gin.Prelude.Words.{wrap64, IsInt64, wrap64_id}
use golang_gin.Errors.{ok}
use golang_gin.Order.{
  OrderItem, Order, calculate_subtotal, fill_subtotal, sum_items, validate_items, validate,
  is_empty,
}
use golang_gin.Order.Saga.{Outside}
use golang_gin.Order.Service.{new_order}

-- The exact price of the items, without a bound.
abbrev pub exact : List OrderItem → ℤ
exact [] = pos 0
exact (i ∷ is) = i.unit_price *ℤ i.quantity +ℤ exact is

-- An item as `buildOrderItems` makes it of a product whose price is not negative.
pub record IsPriced (i : OrderItem) : Type 0 where
  pub price_nonneg : pos 0 ≤ℤ i.unit_price
  pub quantity_pos : pos 1 ≤ℤ i.quantity
  pub subtotal_is : i.subtotal ≡ wrap64 (i.quantity *ℤ i.unit_price)

*ℤ_comm : (a b : ℤ) → a *ℤ b ≡ b *ℤ a
unfolding ◌*ℤ◌
*ℤ_comm a b = ground arith

*ℤ_nonneg : (a b : ℤ) → pos 0 ≤ℤ a → pos 1 ≤ℤ b → pos 0 ≤ℤ a *ℤ b
unfolding ◌*ℤ◌
*ℤ_nonneg a b h k = ground arith

exact-nonneg : (is : List OrderItem) → All IsPriced is → pos 0 ≤ℤ exact is
exact-nonneg [] h = omega arith
exact-nonneg (i ∷ is) h = omega (
  int_laws,
  *ℤ_nonneg i.unit_price i.quantity h.0.price_nonneg h.0.quantity_pos,
  exact-nonneg is h.1,
)

-- The subtotal of a priced item after a round of the loop.
fill_subtotal-subtotal :
    (i : OrderItem) → IsPriced i → (fill_subtotal i).subtotal ≡ wrap64 (i.unit_price *ℤ i.quantity)
unfolding fill_subtotal calculate_subtotal
fill_subtotal-subtotal i h = ground (arith, h.subtotal_is, *ℤ_comm i.unit_price i.quantity)

sum_items-exact :
    (total : ℤ) (is : List OrderItem)
    → pos 0 ≤ℤ total
    → All IsPriced is
    → total +ℤ exact is ≤ℤ pos 9223372036854775807
    → (sum_items total is).1 ≡ total +ℤ exact is
unfolding sum_items
sum_items-exact total [] h p b = eq_of_parts _ _ (omega int_laws)
sum_items-exact total (i ∷ is) h p b =
    let m = i.unit_price *ℤ i.quantity in
    let hm = *ℤ_nonneg i.unit_price i.quantity p.0.price_nonneg p.0.quantity_pos in
    let he = exact-nonneg is p.1 in
    let small : IsInt64 m = record {
      above = omega (int_laws, hm);
      below = omega (int_laws, hm, he, b);
    } in
    let sum : IsInt64 (total +ℤ m) = record {
      above = omega (int_laws, hm, h);
      below = omega (int_laws, hm, he, b);
    } in
    rw (fill_subtotal-subtotal i p.0 ∙ wrap64_id m small, wrap64_id (total +ℤ m) sum)
      (sum_items-exact (total +ℤ m) is (omega (int_laws, hm, h)) p.1 (omega (int_laws, b))
        ∙ +ℤ_assoc total m (exact is))

-- The loop's second run finds every subtotal as it left it, wrapped or not.
fill_subtotal_idem : (i : OrderItem) → fill_subtotal (fill_subtotal i) ≡ fill_subtotal i
unfolding fill_subtotal calculate_subtotal
fill_subtotal_idem i = ground arith

sum_items_idem :
    (total : ℤ) (is : List OrderItem) → sum_items total (sum_items total is).0 ≡ sum_items total is
unfolding sum_items
sum_items_idem total [] = refl
sum_items_idem total (i ∷ is) =
    rw (fill_subtotal_idem i)
      (rw (sum_items_idem (wrap64 (total +ℤ (fill_subtotal i).subtotal)) is))

-- `Validate` accepts an order whose items and total are as its loop leaves them.
validate-filled :
    (o : Order)
    → is_empty o.items ≡ false
    → validate_items o.items ≡ ok tt
    → sum_items (pos 0) o.items ≡ (o.items, o.total_amount)
    → validate o ≡ ok o
unfolding validate
validate-filled o full checked summed = rw (full, checked, summed, eqb_ℤ-refl o.total_amount)

module _ {S : Type 0} (out : Outside S) where
  -- The total of a new order is the exact sum of price times quantity over its items, if every price
  -- is not negative, every quantity is positive and that sum is in the range of `int64`.
  pub new_order-exact :
      (user : ℕ) (items : List OrderItem)
      → All IsPriced items
      → exact items ≤ℤ pos 9223372036854775807
      → (new_order out user items).total_amount ≡ exact items
  unfolding new_order
  new_order-exact user items p b =
      sum_items-exact (pos 0) items (omega arith) p (omega (int_laws, b))
      ∙ eq_of_parts _ _ (omega int_laws)

  validate_items-IsPriced :
      (total : ℤ) (items : List OrderItem)
      → All IsPriced items
      → validate_items (sum_items total items).0 ≡ ok tt
  unfolding validate_items sum_items fill_subtotal
  validate_items-IsPriced total [] h = refl
  validate_items-IsPriced total (i ∷ is) h = ground (
    arith,
    h.0.price_nonneg,
    h.0.quantity_pos,
    validate_items-IsPriced (wrap64 (total +ℤ (fill_subtotal i).subtotal)) is h.1,
  )

  -- `Validate` accepts the order that `CreateOrder` makes of any items with prices that are not
  -- negative and positive quantities, and changes nothing in it, whether or not its sums wrap
  -- around: the second computation of the total agrees with the first.
  pub validate-new_order :
      (user : ℕ) (items : List OrderItem)
      → items ≢ []
      → All IsPriced items
      → validate (new_order out user items) ≡ ok (new_order out user items)
  unfolding new_order
  validate-new_order user [] some h = absurd (some refl)
  validate-new_order user (i ∷ is) some h =
      validate-filled (new_order out user (i ∷ is)) refl
        (validate_items-IsPriced (pos 0) (i ∷ is) h) (sum_items_idem (pos 0) (i ∷ is))
