-- ===== src/Midtrans.antt =====
-- src/midtrans.rs: plans, the item list of a Snap transaction, the payment states and the signature
-- of a notification. SHA-512 is a parameter.
pub mod Checkout
pub mod Items
pub mod Webhook
use gt06n_tcp_server.Prelude.{
  ℕ, ◌+◌, List, [], ◌∷◌, ◌++◌, Bool, true, false, ◌&&◌, ◌||◌, leb, ◌==◌, if◌then◌else◌, Option,
  none, some,
}
use gt06n_tcp_server.Prelude.Int.{ℤ, pos, ◌-ℤ◌, ltb_ℤ, leb_ℤ}
use Prim.Native.Char.{Char, code}
use Prim.Native.String.{String, [] as nil, ◌∷◌ as ◌⸴◌, ◌++◌ as ◌⧺◌}
use text.Mathlib.Text.{◌==◌ as str_eq}

abbrev pub midtrans_basic_plan_code : String
midtrans_basic_plan_code = "monthly_basic"

abbrev pub midtrans_ojol_plan_code : String
midtrans_ojol_plan_code = "monthly_ojol"

abbrev midtrans_breakdown_base_total_idr : ℤ
midtrans_breakdown_base_total_idr = pos 45000

pub data PricingTier : Type 0 where
  basic ojol : PricingTier

pub record SubscriptionPlan : Type 0 where
  pub tier : PricingTier
  pub plan_code : String
  pub price_idr : ℤ

pub data MidtransPaymentStatus : Type 0 where
  pending paid expired failed refunded : MidtransPaymentStatus

pub record MidtransItemDetail : Type 0 where
  pub id : String
  pub price : ℤ
  pub quantity : ℤ
  pub name : String

pub record MidtransTransactionDetails : Type 0 where
  pub order_id : String
  pub gross_amount : ℤ

pub record MidtransSnapExpiry : Type 0 where
  pub start_time : String
  pub duration : ℤ
  pub unit : String

pub record MidtransSnapRequest : Type 0 where
  pub transaction_details : MidtransTransactionDetails
  pub item_details : List MidtransItemDetail
  pub expiry : MidtransSnapExpiry

pub record MidtransWebhookNotification : Type 0 where
  pub order_id : String
  pub status_code : String
  pub gross_amount : String
  pub signature_key : String
  pub transaction_status : String
  pub transaction_id : Option String
  pub payment_type : Option String
  pub fraud_status : Option String

-- `PricingTier::parse` and `as_str`
unfoldable pub parse_tier : String → Option PricingTier
parse_tier value =
    if str_eq value "basic" then some basic else if str_eq value "ojol" then some ojol else none

unfoldable pub as_str : PricingTier → String
as_str basic = "basic"
as_str ojol = "ojol"

unfoldable pub label : PricingTier → String
label basic = "Heartbeats Basic"
label ojol = "Heartbeats Ojol"

-- With the two prices that the client holds.
unfoldable pub subscription_plan_for_tier : ℤ → ℤ → PricingTier → SubscriptionPlan
subscription_plan_for_tier basic_price_idr ojol_price_idr basic = record {
  tier = basic;
  plan_code = midtrans_basic_plan_code;
  price_idr = basic_price_idr;
}
subscription_plan_for_tier basic_price_idr ojol_price_idr ojol = record {
  tier = ojol;
  plan_code = midtrans_ojol_plan_code;
  price_idr = ojol_price_idr;
}

item : String → ℤ → String → MidtransItemDetail
item id price name = record { id = id; price = price; quantity = pos 1; name = name }

-- A charge that is added only when there is one.
charge : String → ℤ → String → List MidtransItemDetail
unfolding item
charge id price name = if ltb_ℤ (pos 0) price then item id price name ∷ [] else []

base_details : SubscriptionPlan → ℤ → List MidtransItemDetail
unfolding item charge label
base_details plan effective_base_amount_idr =
    if leb_ℤ midtrans_breakdown_base_total_idr effective_base_amount_idr
    then item "internet_data" (pos 10000) "Data internet"
      ∷ item "sewa_alat" (pos 20000) "Sewa alat"
      ∷ item "server dan biaya layanan" (pos 5000) "Server"
      ∷ charge "heartbeats_service" (effective_base_amount_idr -ℤ pos 35000) "Layanan Heartbeats"
    else item plan.plan_code effective_base_amount_idr ("Akses " ⧺ label plan.tier ⧺ " 30 Hari")
      ∷ []

-- The items of `create_snap_transaction`.
unfoldable pub item_details : SubscriptionPlan → ℤ → ℤ → ℤ → List MidtransItemDetail
unfolding base_details charge
item_details plan effective_base_amount_idr shipment_fee_idr fine_amount_idr =
    base_details plan effective_base_amount_idr
    ++ charge "late_payment_sanction" fine_amount_idr "Denda keterlambatan"
    ++ charge "device_shipment_fee" shipment_fee_idr "Biaya pengiriman perangkat"

-- The request that `create_snap_transaction` sends. `format` stands for `created_at.format(…)`.
unfoldable pub snap_request :
    {I : Type 0}
    → (I → String)
    → ℤ
    → SubscriptionPlan
    → String
    → I
    → ℤ
    → ℤ
    → ℤ
    → ℤ
    → MidtransSnapRequest
unfolding item_details
snap_request format expiry_hours plan order_id created_at effective_base_amount_idr shipment_fee_idr
      gross_amount_idr fine_amount_idr =
    record {
      transaction_details = record { order_id = order_id; gross_amount = gross_amount_idr };
      item_details = item_details plan effective_base_amount_idr shipment_fee_idr fine_amount_idr;
      expiry = record { start_time = format created_at; duration = expiry_hours; unit = "hour" };
    }

unfoldable pub map_midtrans_status : String → Option MidtransPaymentStatus
map_midtrans_status status =
    if str_eq status "settlement" || str_eq status "capture"
    then some paid
    else if str_eq status "pending"
    then some pending
    else if str_eq status "expire"
    then some expired
    else if str_eq status "deny" || str_eq status "cancel" || str_eq status "failure"
    then some failed
    else if str_eq status "refund" || str_eq status "partial_refund"
    then some refunded
    else none

-- The code of a character in lower case, where it is an ASCII letter.
ascii_lower : ℕ → ℕ
ascii_lower c = if leb 65 c && leb c 90 then c + 32 else c

unfoldable pub eq_ignore_ascii_case : String → String → Bool
unfolding ascii_lower
eq_ignore_ascii_case nil nil = true
eq_ignore_ascii_case nil (d ⸴ t) = false
eq_ignore_ascii_case (c ⸴ s) nil = false
eq_ignore_ascii_case (c ⸴ s) (d ⸴ t) =
    ascii_lower (code c) == ascii_lower (code d) && eq_ignore_ascii_case s t

-- `sha512_hex` gives the digest in lower case hexadecimal digits.
unfoldable pub verify_midtrans_signature :
    (String → String) → String → String → String → String → String → Bool
unfolding eq_ignore_ascii_case
verify_midtrans_signature sha512_hex server_key order_id status_code gross_amount signature_key =
    eq_ignore_ascii_case (sha512_hex (order_id ⧺ status_code ⧺ gross_amount ⧺ server_key))
      signature_key
