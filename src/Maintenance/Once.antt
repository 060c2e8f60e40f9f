-- ===== src/Maintenance/Once.antt =====
-- The daily job (src/subscription_maintenance.rs) acts once: what it has done for a subscription it
-- does not do again on the same day.
use gt06n_tcp_server.Prelude.{ℕ, zero, suc, ◌≡◌, sym, subst, arith, Bool, true, Option, some}
use gt06n_tcp_server.Prelude.Int.{
  ℤ, pos, negsuc, pos_part, neg_part, eqb_ℤ_refl, as_i32, as_i32_self,
}
use gt06n_tcp_server.Subscription.{
  no_action, pre_expiry_reminder, expiry_day_reminder, overdue_reminder, mark_withdrawal_required,
  max_zero, resolve_for,
}

-- The rule alone, on the days of one moment: `d` to go and `o` over. Once the reminder is recorded
-- for this period and day, nothing is due.
abbrev pub Once : ℤ → ℤ → Bool → Option ℤ → Option ℤ → Bool → Type 0
Once d o p pre lod w =
    let before = resolve_for d o p pre lod w in
    ((x : ℤ) (lod' : Option ℤ) (w' : Bool)
      → before ≡ pre_expiry_reminder x
      → resolve_for d o true (some (as_i32 x)) lod' w' ≡ no_action)
    × ((lod' : Option ℤ) (w' : Bool)
        → before ≡ expiry_day_reminder
        → resolve_for d o true (some (as_i32 (pos 0))) lod' w' ≡ no_action)
    × ((x f : ℤ) (pre' : Option ℤ) (w' : Bool)
        → before ≡ overdue_reminder x f
        → resolve_for d o true pre' (some (as_i32 x)) w' ≡ no_action)
    × ((x f : ℤ) (pre' lod' : Option ℤ)
        → before ≡ mark_withdrawal_required x f
        → resolve_for d o true pre' lod' true ≡ no_action)

Once-before :
    (n : ℕ) (p : Bool) (pre lod : Option ℤ) (w : Bool) → Once (pos (suc n)) (pos 0) p pre lod w
unfolding resolve_for
Once-before n p pre lod w = (
  λ x lod' w' h. ground (arith, eqb_ℤ_refl (as_i32 (pos (suc n)))),
  λ lod' w' h. ground arith,
  λ x f pre' w' h. ground arith,
  λ x f pre' lod' h. ground arith,
)

Once-on : (p : Bool) (pre lod : Option ℤ) (w : Bool) → Once (pos 0) (pos 0) p pre lod w
unfolding resolve_for
Once-on p pre lod w = (
  λ x lod' w' h. ground arith,
  λ lod' w' h. ground (arith, as_i32_self (pos 0) (omega arith)),
  λ x f pre' w' h. ground arith,
  λ x f pre' lod' h. ground arith,
)

Once-after :
    (n : ℕ) (p : Bool) (pre lod : Option ℤ) (w : Bool) → Once (negsuc n) (pos (suc n)) p pre lod w
unfolding resolve_for
Once-after n p pre lod w = (
  λ x lod' w' h. ground arith,
  λ lod' w' h. ground arith,
  λ x f pre' w' h. ground (arith, eqb_ℤ_refl (as_i32 (pos (suc n)))),
  λ x f pre' lod' h. ground arith,
)

pub Once-on_any_day :
    (d e : ℤ) (p : Bool) (pre lod : Option ℤ) (w : Bool)
    → pos_part d ≡ neg_part e
    → pos_part e ≡ neg_part d
    → Once d (max_zero e) p pre lod w
Once-on_any_day (pos zero) e p pre lod w h k =
    let o : max_zero e ≡ pos 0 = ground arith in
    subst (λ t. Once (pos zero) t p pre lod w) (sym o) (Once-on p pre lod w)
Once-on_any_day (pos (suc n)) e p pre lod w h k =
    let o : max_zero e ≡ pos 0 = ground arith in
    subst (λ t. Once (pos (suc n)) t p pre lod w) (sym o) (Once-before n p pre lod w)
Once-on_any_day (negsuc n) e p pre lod w h k =
    let o : max_zero e ≡ pos (suc n) = ground arith in
    subst (λ t. Once (negsuc n) t p pre lod w) (sym o) (Once-after n p pre lod w)
