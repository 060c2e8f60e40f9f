-- ===== src/Tests/Data.antt =====
-- Test data: frames of a device on the wire, a float type and a calendar.
use gt06n_tcp_server.Prelude.{
  ℕ, ◌≡◌, ◌↔◌, ◌+◌, ◌-◌, ◌/◌, ltb, leb, subst, arith, List, [], ◌∷◌, true,
}
use gt06n_tcp_server.Prelude.Int.{
  ℤ, pos, ◌+ℤ◌, ◌-ℤ◌, ltb_ℤ, eqb_ℤ, eqb_ℤ_refl, eq_of_parts, +ℤ_parts, -ℤ_parts,
}
use gt06n_tcp_server.Float.{Float64}
use gt06n_tcp_server.Chrono.{Chrono, IsChrono}
use gt06n_tcp_server.Protocol.{Frame}

-- Terms in place of floats: every operation is kept.
pub data Expr : Type 0 where
  lit : ℕ → Expr
  minus : Expr → Expr
  quotient : Expr → Expr → Expr

abbrev pub exprs : Float64
exprs = record {
  F = Expr;
  from_int = lit;
  neg = minus;
  add = λ a b. a;
  sub = λ a b. a;
  mul = λ a b. a;
  div = quotient;
  lt = λ a b. true;
  le = λ a b. true;
  is_finite = λ a. true;
  sin = λ a. a;
  cos = λ a. a;
  sqrt = λ a. a;
  atan2 = λ a b. a;
  to_radians = λ a. a;
  abs = λ a. a;
  max = λ a b. a;
}

-- A clock that ticks once a day.
abbrev pub days : Chrono
days = record {
  Instant = ℤ;
  Date = ℤ;
  same = eqb_ℤ;
  before = ltb_ℤ;
  local_date = λ _ t. t;
  num_days = λ a b. a -ℤ b;
  num_seconds = λ a b. a -ℤ b;
  add_days = λ t n. t +ℤ n;
  add_hours = λ t n. t;
}

eqb_ℤ_iff : (a b : ℤ) → (eqb_ℤ a b ≡ true) ↔ (a ≡ b)
eqb_ℤ_iff a b =
    (λ h. eq_of_parts a b (ground arith), λ h. subst (λ t. eqb_ℤ a t ≡ true) h (eqb_ℤ_refl a))

add_mono : (a b n : ℤ) → ltb_ℤ a b ≡ true → ltb_ℤ (a +ℤ n) (b +ℤ n) ≡ true
add_mono a b n h = ground (arith, +ℤ_parts a n, +ℤ_parts b n)

add_sub : (a n d : ℤ) → (a +ℤ n) -ℤ d ≡ (a -ℤ d) +ℤ n
add_sub a n d = eq_of_parts ((a +ℤ n) -ℤ d) ((a -ℤ d) +ℤ n) (
    let h₁ = +ℤ_parts a n in
    let h₂ = -ℤ_parts (a +ℤ n) d in
    let h₃ = -ℤ_parts a d in let h₄ = +ℤ_parts (a -ℤ d) n in omega arith)

pub days-IsChrono : IsChrono days
unfolding ◌-ℤ◌
days-IsChrono = record {
  same_iff = eqb_ℤ_iff;
  num_days_flip = λ a b. ground arith;
  before_trans = λ a b c h k. ground arith;
  before_total = λ a b h k. eq_of_parts a b (ground arith);
  before_irrefl = λ a. ground arith;
  add_days_later = λ a n h. ground (arith, +ℤ_parts a (pos n));
  add_days_mono = add_mono;
  add_days_date = λ offset a n d. add_sub a n d;
}

abbrev pub imei_bytes : List ℕ
imei_bytes = 0x01 ∷ 0x23 ∷ 0x45 ∷ 0x67 ∷ 0x89 ∷ 0x01 ∷ 0x23 ∷ 0x45 ∷ []

abbrev pub login_frame : Frame
login_frame = record { protocol_number = 0x01; payload = imei_bytes; serial = 1 }

abbrev pub heartbeat_frame : Frame
heartbeat_frame = record {
  protocol_number = 0x13;
  payload = 0x44 ∷ 0x01 ∷ 0x04 ∷ 0x00 ∷ 0x01 ∷ [];
  serial = 2;
}

-- Whole numbers in place of floats, with a distance that is half the way between the coordinates.
abbrev pub whole : Float64
whole = record {
  F = ℕ;
  from_int = λ n. n;
  neg = λ a. 0;
  add = ◌+◌;
  sub = ◌-◌;
  mul = λ a b. b;
  div = ◌/◌;
  lt = ltb;
  le = leb;
  is_finite = λ a. true;
  sin = λ a. a;
  cos = λ a. a;
  sqrt = λ a. a;
  atan2 = λ a b. a;
  to_radians = λ a. a;
  abs = λ a. a;
  max = λ a b. a;
}
