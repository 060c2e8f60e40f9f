-- ===== src/Chrono.antt =====
-- The part of the `chrono` crate that the sources call, as a parameter: instants (`DateTime<Utc>`),
-- calendar dates (`NaiveDate`) and the operations on them. `IsChrono` states what the crate
-- documents of them.
use gt06n_tcp_server.Prelude.{ℕ, ◌≡◌, ◌↔◌, ◌<◌, Bool, true, false}
use gt06n_tcp_server.Prelude.Int.{ℤ, pos, pos_part, neg_part, ◌+ℤ◌}

pub record Chrono : Type 1 where
  pub Instant : Type 0
  pub Date : Type 0
  -- `a == b` and `a < b`
  pub same : Instant → Instant → Bool
  pub before : Instant → Instant → Bool
  -- `t.with_timezone(&FixedOffset::east(seconds)).date_naive()`
  pub local_date : ℕ → Instant → Date
  -- `a.signed_duration_since(b).num_days()` for dates
  pub num_days : Date → Date → ℤ
  -- `a.signed_duration_since(b).num_seconds()` for instants
  pub num_seconds : Instant → Instant → ℤ
  -- `t + Duration::days(n)` and `t + Duration::hours(n)`
  pub add_days : Instant → ℤ → Instant
  pub add_hours : Instant → ℤ → Instant

-- Equality decides. The days between two dates change sign with the order. `before` is a strict
-- linear order. A positive number of days leads to a later instant, and moves the local date by it.
pub record IsChrono (chrono : Chrono) : Type 0 where
  pub same_iff : (a b : chrono.Instant) → (chrono.same a b ≡ true) ↔ (a ≡ b)
  pub num_days_flip :
      (a b : chrono.Date) → pos_part (chrono.num_days a b) ≡ neg_part (chrono.num_days b a)
  pub before_trans :
      (a b c : chrono.Instant)
      → chrono.before a b ≡ true
      → chrono.before b c ≡ true
      → chrono.before a c ≡ true
  pub before_total :
      (a b : chrono.Instant) → chrono.before a b ≡ false → chrono.before b a ≡ false → a ≡ b
  pub before_irrefl : (a : chrono.Instant) → chrono.before a a ≡ false
  pub add_days_later :
      (a : chrono.Instant) (n : ℕ) → 0 < n → chrono.before a (chrono.add_days a (pos n)) ≡ true
  pub add_days_mono :
      (a b : chrono.Instant) (n : ℤ)
      → chrono.before a b ≡ true
      → chrono.before (chrono.add_days a n) (chrono.add_days b n) ≡ true
  pub add_days_date :
      (offset : ℕ) (a : chrono.Instant) (n : ℤ) (d : chrono.Date)
      → chrono.num_days (chrono.local_date offset (chrono.add_days a n)) d
        ≡ chrono.num_days (chrono.local_date offset a) d +ℤ n
