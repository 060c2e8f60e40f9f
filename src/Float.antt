-- ===== src/Float.antt =====
-- Rust's `f64`, as far as the sources compute with it: a type with its operations, taken as a
-- parameter. Nothing is assumed of them here; a theorem that needs a law names it.
use gt06n_tcp_server.Prelude.{ℕ, Bool}

pub record Float64 : Type 1 where
  pub F : Type 0
  -- an integer below 2^53, as a float
  pub from_int : ℕ → F
  pub neg : F → F
  pub add : F → F → F
  pub sub : F → F → F
  pub mul : F → F → F
  pub div : F → F → F
  pub lt : F → F → Bool
  pub le : F → F → Bool
  pub is_finite : F → Bool
  pub sin : F → F
  pub cos : F → F
  pub sqrt : F → F
  pub atan2 : F → F → F
  pub to_radians : F → F
  pub abs : F → F
  pub max : F → F → F
