-- ===== src/Time/Span.antt =====
-- src/tdk/time/time_span.cpp: a span of microseconds. An `int64_t` is its bit pattern, a number
-- below 2 ^ 64, and its arithmetic wraps; an `int32_t` argument is extended to such a pattern.
pub mod Parts
pub mod Order
mod Tests
use deprecated_tdk.Prelude.{
  ℕ, ◌+◌, ◌-◌, ◌*◌, ◌/◌, ◌%◌, ◌^◌, Bool, true, false, ltb, leb, ◌==◌, if◌then◌else◌,
}

pub record TimeSpan : Type 0 where
  pub delta : ℕ

-- The sign, the absolute value, and `/`, `%` and `<` of an `int64_t`.
abbrev pub is_negative : ℕ → Bool
is_negative v = leb (2 ^ 63) v

abbrev pub magnitude : ℕ → ℕ
magnitude v = if is_negative v then 2 ^ 64 - v else v

abbrev pub signed : Bool → ℕ → ℕ
signed negative n = if negative then (2 ^ 64 - n) % 2 ^ 64 else n

-- By a positive number.
abbrev pub quotient : ℕ → ℕ → ℕ
quotient v k = signed (is_negative v) (magnitude v / k)

abbrev pub remainder : ℕ → ℕ → ℕ
remainder v k = signed (is_negative v) (magnitude v % k)

abbrev pub less : ℕ → ℕ → Bool
less v w = ltb ((v + 2 ^ 63) % 2 ^ 64) ((w + 2 ^ 63) % 2 ^ 64)

-- The constructors with hours, with days, and with days and milliseconds.
pub of_hours : ℕ → ℕ → ℕ → TimeSpan
of_hours hours minutes seconds = record {
  delta = ((hours * 60 + minutes) * 60 + seconds) * 1_000_000 % 2 ^ 64;
}

pub of_days : ℕ → ℕ → ℕ → ℕ → TimeSpan
of_days days hours minutes seconds = record {
  delta = (((days * 24 + hours) * 60 + minutes) * 60 + seconds) * 1_000_000 % 2 ^ 64;
}

pub of_milli_seconds : ℕ → ℕ → ℕ → ℕ → ℕ → TimeSpan
of_milli_seconds days hours minutes seconds milliseconds = record {
  delta =
      ((((days * 24 + hours) * 60 + minutes) * 60 + seconds) * 1000 + milliseconds) * 1000 % 2 ^ 64;
}

unfoldable pub from_micro_seconds : ℕ → TimeSpan
from_micro_seconds v = record { delta = v }

pub from_milli_seconds : ℕ → TimeSpan
from_milli_seconds v = record { delta = v * 1000 % 2 ^ 64 }

unfoldable pub from_seconds : ℕ → TimeSpan
from_seconds v = record { delta = v * 1_000_000 % 2 ^ 64 }

unfoldable pub from_minutes : ℕ → TimeSpan
from_minutes v = record { delta = v * (1_000_000 * 60) % 2 ^ 64 }

unfoldable pub from_hours : ℕ → TimeSpan
from_hours v = record { delta = v * (1_000_000 * (60 * 60)) % 2 ^ 64 }

unfoldable pub from_days : ℕ → TimeSpan
from_days v = record { delta = v * (1_000_000 * (60 * 60 * 24)) % 2 ^ 64 }

abbrev pub infinite : TimeSpan
infinite = record { delta = 0x7fff_ffff_ffff_ffff }

-- The `total_` methods.
pub total_milli_seconds : TimeSpan → ℕ
total_milli_seconds s = quotient s.delta 1000

pub total_seconds : TimeSpan → ℕ
total_seconds s = quotient s.delta 1_000_000

pub total_minutes : TimeSpan → ℕ
total_minutes s = quotient s.delta (1_000_000 * 60)

pub total_hours : TimeSpan → ℕ
total_hours s = quotient s.delta (1_000_000 * (60 * 60))

pub total_days : TimeSpan → ℕ
total_days s = quotient s.delta (1_000_000 * (60 * 60 * 24))

-- The parts: what is left of the next larger unit.
pub micro_seconds : TimeSpan → ℕ
micro_seconds s = remainder s.delta 1000

pub milli_seconds : TimeSpan → ℕ
unfolding total_milli_seconds
milli_seconds s = remainder (total_milli_seconds s) 1000

pub seconds : TimeSpan → ℕ
unfolding total_seconds
seconds s = remainder (total_seconds s) 60

pub minutes : TimeSpan → ℕ
unfolding total_minutes
minutes s = remainder (total_minutes s) 60

pub hours : TimeSpan → ℕ
unfolding total_hours
hours s = remainder (total_hours s) 24

pub days : TimeSpan → ℕ
unfolding total_days
days s = total_days s

-- `timeval`: seconds as an `int`, a 32-bit pattern, and microseconds.
pub record Timeval : Type 0 where
  pub tv_sec : ℕ
  pub tv_usec : ℕ

-- The right operand of `%` is a `uint64_t`, so the left one counts as such too.
pub to_timeval : TimeSpan → Timeval
unfolding total_seconds
to_timeval s = record { tv_sec = total_seconds s % 2 ^ 32; tv_usec = s.delta % 1_000_000 }

-- The operators.
pub equals : TimeSpan → TimeSpan → Bool
equals s rhs = s.delta == rhs.delta

pub less_than : TimeSpan → TimeSpan → Bool
less_than s rhs = less s.delta rhs.delta

unfoldable pub add : TimeSpan → TimeSpan → TimeSpan
add s rhs = record { delta = (s.delta + rhs.delta) % 2 ^ 64 }

pub subtract : TimeSpan → TimeSpan → TimeSpan
subtract s rhs = record { delta = (s.delta + (2 ^ 64 - rhs.delta)) % 2 ^ 64 }

pub negate : TimeSpan → TimeSpan
negate s = record { delta = (2 ^ 64 - s.delta) % 2 ^ 64 }

pub multiply : TimeSpan → ℕ → TimeSpan
multiply s times = record { delta = s.delta * times % 2 ^ 64 }

-- A number that is not positive divides like 1.
abbrev pub divisor : ℕ → ℕ
divisor times = if less 0 times then times else 1

pub divide : TimeSpan → ℕ → TimeSpan
divide s times = record { delta = quotient s.delta (divisor times) }

pub ratio : TimeSpan → TimeSpan → ℕ
ratio s times = quotient s.delta (divisor times.delta)
