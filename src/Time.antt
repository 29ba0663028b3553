-- ===== src/Time.antt =====
-- Rust's `Duration` and `SystemTime`, in nanoseconds, and computations that may panic.
use trillium_cache.Prelude.{ℕ, ◌+◌, ◌-◌, ◌*◌, ◌/◌, ◌^◌, Option, none, some, ltb, leb, if◌then◌else◌}

-- A value, or a panic that unwinds out of the function.
pub data Run {ℓ} (A : Type ℓ) : Type ℓ where
  done : A → Run A
  panic : Run A

infixl 5 ◌>>=◌
abbrev pub ◌>>=◌ {ℓ κ} : {A : Type ℓ} {B : Type κ} → Run A → (A → Run B) → Run B
done a >>= f = f a
panic >>= f = panic

-- Nanoseconds.
abbrev pub Duration : Type 0
Duration = ℕ

-- Nanoseconds since the earliest time that the platform can express.
abbrev pub SystemTime : Type 0
SystemTime = ℕ

abbrev pub nanos_per_sec : ℕ
nanos_per_sec = 1000000000

-- A `Duration` holds whole seconds in a `u64`: its nanoseconds stay below this.
abbrev pub duration_end : ℕ
duration_end = 2 ^ 64 * nanos_per_sec

-- `Duration::from_secs`
abbrev pub from_secs : ℕ → Duration
from_secs s = s * nanos_per_sec

-- `Duration::as_secs`
abbrev pub as_secs : Duration → ℕ
as_secs d = d / nanos_per_sec

-- `Duration + Duration`, which panics on overflow
abbrev pub add : Duration → Duration → Run Duration
add a b = if ltb (a + b) duration_end then done (a + b) else panic

-- `Duration - Duration`, which panics below zero
abbrev pub sub : Duration → Duration → Run Duration
sub a b = if leb b a then done (a - b) else panic

-- `Duration::checked_sub`
abbrev pub checked_sub : Duration → Duration → Option Duration
checked_sub a b = if leb b a then some (a - b) else none

-- `Duration::saturating_sub`
abbrev pub saturating_sub : Duration → Duration → Duration
saturating_sub a b = a - b

-- `SystemTime::duration_since`: `none` is the error for an earlier time
abbrev pub duration_since : SystemTime → SystemTime → Option Duration
duration_since now earlier = if leb earlier now then some (now - earlier) else none
