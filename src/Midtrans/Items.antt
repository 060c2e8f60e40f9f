-- ===== src/Midtrans/Items.antt =====
-- The items of a Snap transaction (src/midtrans.rs) against the amount that is charged and recorded
-- (src/bot.rs).
use gt06n_tcp_server.Prelude.{◌≡◌, refl, Bool, Option, sym, ap, ◌∙◌, arith, List, [], ◌∷◌, ◌++◌}
use gt06n_tcp_server.Prelude.Int.{ℤ, pos, negsuc, ◌+ℤ◌, ◌-ℤ◌, ◌*ℤ◌, eq_of_parts, +ℤ_parts, wrap_i64}
use gt06n_tcp_server.Midtrans.{
  snap_request, SubscriptionPlan, MidtransItemDetail, base_details, charge, item, item_details,
}
use gt06n_tcp_server.Chrono.{Chrono}
use gt06n_tcp_server.Subscription.{max_zero, payment_quote}
use gt06n_tcp_server.Subscription.Fines.{
  IsPrice, fee_or_zero, payment_quote_total, payment_quote-IsPrice,
}
use gt06n_tcp_server.Midtrans.Checkout.{checkout}
use Prim.Native.String.{String}

-- What the items cost: each its price, as often as its quantity says.
unfoldable pub total : List MidtransItemDetail → ℤ
total [] = pos 0
total (i ∷ rest) = i.price *ℤ i.quantity +ℤ total rest

+ℤ_assoc : (a b c : ℤ) → (a +ℤ b) +ℤ c ≡ a +ℤ (b +ℤ c)
+ℤ_assoc a b c = eq_of_parts ((a +ℤ b) +ℤ c) (a +ℤ (b +ℤ c)) (
    let h₁ = +ℤ_parts a b in
    let h₂ = +ℤ_parts (a +ℤ b) c in
    let h₃ = +ℤ_parts b c in let h₄ = +ℤ_parts a (b +ℤ c) in omega arith)

total-append : (xs ys : List MidtransItemDetail) → total (xs ++ ys) ≡ total xs +ℤ total ys
unfolding total ◌+ℤ◌
total-append [] ys = ground arith
total-append (x ∷ xs) ys =
    ap (λ t. x.price *ℤ x.quantity +ℤ t) (total-append xs ys)
    ∙ sym (+ℤ_assoc (x.price *ℤ x.quantity) (total xs) (total ys))

total-charge :
    (id : String) (price : ℤ) (name : String) → total (charge id price name) ≡ max_zero price
unfolding total charge item ◌+ℤ◌ ◌*ℤ◌
total-charge id price name = ground arith

total-base_details : (plan : SubscriptionPlan) (base : ℤ) → total (base_details plan base) ≡ base
unfolding total base_details charge item ◌+ℤ◌ ◌-ℤ◌ ◌*ℤ◌
total-base_details plan (pos n) = ground arith
total-base_details plan (negsuc n) = ground arith

-- The items add up to the base amount with the fine and the shipment fee,
-- where a negative fine or fee counts as none.
total-item_details :
    (plan : SubscriptionPlan) (effective_base_amount_idr shipment_fee_idr fine_amount_idr : ℤ)
    → total (item_details plan effective_base_amount_idr shipment_fee_idr fine_amount_idr)
      ≡ effective_base_amount_idr +ℤ (max_zero fine_amount_idr +ℤ max_zero shipment_fee_idr)
unfolding item_details
total-item_details plan base fee fine =
    let late = charge "late_payment_sanction" fine "Denda keterlambatan" in
    let shipment = charge "device_shipment_fee" fee "Biaya pengiriman perangkat" in
    rw
      (
        total-append (base_details plan base ++ late) shipment,
        total-append (base_details plan base) late,
        total-base_details plan base,
        total-charge "late_payment_sanction" fine "Denda keterlambatan",
        total-charge "device_shipment_fee" fee "Biaya pengiriman perangkat",
      )
      (+ℤ_assoc base (max_zero fine) (max_zero fee))

max_zero_price : (a : ℤ) → IsPrice a → max_zero a ≡ a
max_zero_price (pos n) h = ground arith
max_zero_price (negsuc n) h = ground arith

swapped : (a b c : ℤ) → a +ℤ (c +ℤ b) ≡ a +ℤ b +ℤ c
swapped a b c = eq_of_parts (a +ℤ (c +ℤ b)) (a +ℤ b +ℤ c) (
    let h₁ = +ℤ_parts c b in
    let h₂ = +ℤ_parts a (c +ℤ b) in
    let h₃ = +ℤ_parts a b in let h₄ = +ℤ_parts (a +ℤ b) c in omega arith)

reordered :
    (a fee fine : ℤ)
    → IsPrice fee
    → IsPrice fine
    → a +ℤ (max_zero fine +ℤ max_zero fee) ≡ a +ℤ fee +ℤ fine
reordered a fee fine h k = rw (max_zero_price fee h, max_zero_price fine k) (swapped a fee fine)

-- For a payment that is started, with a plan's price and a device's shipment fee that are not negative
-- and below 2^60: what the items of the request cost, price times quantity, is exactly the gross amount
-- that is charged, and the gross amount is the one that is recorded for the order.
pub total-checkout :
    (chrono : Chrono) (format : chrono.Instant → String) (expiry_hours : ℤ)
    (plan : SubscriptionPlan) (order_id : String) (created_at : chrono.Instant) (referenced : Bool)
    (shipment : Option ℤ) (paid_before : Bool) (period_end : Option chrono.Instant)
    → IsPrice plan.price_idr
    → IsPrice (fee_or_zero shipment)
    → let c =
        checkout chrono format expiry_hours plan order_id created_at referenced shipment paid_before
          period_end in
      (total c.request.item_details ≡ c.request.transaction_details.gross_amount)
      × (c.request.transaction_details.gross_amount ≡ c.recorded_gross_amount_idr)
unfolding checkout snap_request
total-checkout chrono format expiry_hours plan order_id created_at referenced shipment paid_before
      period_end hp hs =
    let q =
      payment_quote chrono plan.price_idr referenced shipment paid_before period_end created_at in
    let (base, ship, fine) =
      payment_quote-IsPrice chrono plan.price_idr referenced shipment paid_before period_end
        created_at hp hs in
    let (exact, _, _) =
      payment_quote_total chrono plan.price_idr referenced shipment paid_before period_end
        created_at hp hs in
    let effective = wrap_i64 (q.base_amount_idr +ℤ q.customer_reference_fee_idr) in
    (
      total-item_details plan effective q.shipment_fee_idr q.fine_amount_idr
          ∙ ap (λ b. b +ℤ (max_zero q.fine_amount_idr +ℤ max_zero q.shipment_fee_idr)) base
          ∙ reordered (q.base_amount_idr +ℤ q.customer_reference_fee_idr) q.shipment_fee_idr
              q.fine_amount_idr ship fine
          ∙ sym exact,
      refl,
    )
