-- ===== src/Order/Items.antt =====
-- The items that `buildOrderItems` makes of a request and the products that it gets.
use golang_gin.Prelude.{
  ◌≡◌, sym, String, Option, none, some, List, [], ◌∷◌, All, Option-cases, inl, inr, arith, map,
}
use mathlib.Core.Path.{subst}
use golang_gin.Prelude.Int.{pos, ◌≤ℤ◌}
use golang_gin.Errors.{ok, Result-cases}
use golang_gin.Order.{OrderItem}
use golang_gin.Order.Saga.{
  ProtoProduct, ItemRequest, Outside, product_map, check_requests, build_item, build_items,
  build_order_items,
}
use golang_gin.Order.Totals.{IsPriced}

-- A product whose price is not negative.
abbrev pub IsSold : ProtoProduct → Type 0
IsSold p = pos 0 ≤ℤ p.price

-- A request for at least one item.
abbrev IsAsked : ItemRequest → Type 0
IsAsked r = pos 1 ≤ℤ r.quantity

module _ {S : Type 0} (out : Outside S) where
  product_map-IsSold :
      (id : String) (ps : List ProtoProduct) (p : ProtoProduct)
      → All IsSold ps
      → product_map out id ps ≡ some p
      → IsSold p
  unfolding product_map
  product_map-IsSold id [] p all h = absurd (ground arith)
  product_map-IsSold id (q ∷ qs) p all h = ground (arith, product_map-IsSold id qs p all.1)

  check_requests-eq-ok :
      (r : ItemRequest) (rs : List (Option ItemRequest)) (checked : List ItemRequest)
      → check_requests out (some r ∷ rs) ≡ ok checked
      → (rest : List ItemRequest) × IsAsked r
        × (check_requests out rs ≡ ok rest)
        × (checked ≡ r ∷ rest)
  unfolding check_requests
  check_requests-eq-ok r rs checked h = elim (Result-cases (check_requests out rs)) [
    | inl (e, is) ↦ absurd (ground (arith, is))
    | inr (rest, is) ↦ (rest, ground (arith, is), is, ground (arith, is))
  ]

  check_requests-IsAsked :
      (rs : List (Option ItemRequest)) (checked : List ItemRequest)
      → check_requests out rs ≡ ok checked
      → All IsAsked checked
  unfolding check_requests
  check_requests-IsAsked [] checked h =
      let is : checked ≡ [] = ground arith in subst (All IsAsked) (sym is) tt
  check_requests-IsAsked (none ∷ rs) checked h = absurd (ground arith)
  check_requests-IsAsked (some r ∷ rs) checked h =
      let (rest, first, later, is) = check_requests-eq-ok r rs checked h in
      subst (All IsAsked) (sym is) (first, check_requests-IsAsked rs rest later)

  build_item-IsPriced :
      (ps : List ProtoProduct) (r : ItemRequest) (i : OrderItem)
      → All IsSold ps
      → IsAsked r
      → build_item out ps r ≡ ok i
      → IsPriced i
  unfolding build_item
  build_item-IsPriced ps r i all asked h = elim (Option-cases (product_map out r.product_id ps)) [
    | inl none_there ↦ absurd (ground (arith, none_there))
    | inr (p, there) ↦
        let price = product_map-IsSold r.product_id ps p all there in ground (arith, there, price)
  ]

  build_items-IsPriced :
      (ps : List ProtoProduct) (rs : List ItemRequest) (items : List OrderItem)
      → All IsSold ps
      → All IsAsked rs
      → build_items out ps rs ≡ ok items
      → All IsPriced items
  unfolding build_items
  build_items-IsPriced ps [] items all asked h =
      let is : items ≡ [] = ground arith in subst (All IsPriced) (sym is) tt
  build_items-IsPriced ps (r ∷ rs) items all asked h = elim (Result-cases (build_item out ps r)) [
    | inl (e, bad) ↦ absurd (ground (arith, bad))
    | inr (i, good) ↦ elim (Result-cases (build_items out ps rs)) [
      | inl (e, bad) ↦ absurd (ground (arith, good, bad))
      | inr (rest, later) ↦
          let is : items ≡ i ∷ rest = ground (arith, good, later) in
          subst (All IsPriced) (sym is) (
            build_item-IsPriced ps r i all asked.0 good,
            build_items-IsPriced ps rs rest all asked.1 later,
          )
    ]
  ]

  -- If the product service never answers with a negative price, every item that `buildOrderItems`
  -- returns has a price that is not negative, a positive quantity, and as its subtotal their
  -- product, wrapped to 64 bits.
  pub build_order_items-IsPriced :
      ((ids : List String) (s : S) (ps : List ProtoProduct)
        → out.get_products_by_ids ids s ≡ ok ps
        → All IsSold ps)
      → (requests : List (Option ItemRequest)) (s : S) (items : List OrderItem)
      → build_order_items out requests s ≡ ok items
      → All IsPriced items
  unfolding build_order_items
  build_order_items-IsPriced sold requests s items h =
      elim (Result-cases (check_requests out requests)) [
        | inl (e, bad) ↦ absurd (ground (arith, bad))
        | inr (rs, good) ↦
            elim (Result-cases (out.get_products_by_ids (map (λ r. r.product_id) rs) s)) [
              | inl (e, bad) ↦ absurd (ground (arith, good, bad))
              | inr (ps, got) ↦
                  build_items-IsPriced ps rs items (sold (map (λ r. r.product_id) rs) s ps got)
                    (check_requests-IsAsked requests rs good) (ground (arith, good, got))
            ]
      ]
