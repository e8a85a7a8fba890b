-- ===== src/Base/Clock.antt =====
-- Time and machine integers. An `Instant` is a number of nanoseconds since the earliest instant
-- that the platform represents, a `Duration` is a number of nanoseconds, and a Unix time is a
-- number of seconds. `duration_since` and `elapsed` stop at zero, as `-` does.
use Prim.Native.Nat.{ℕ, ◌+◌, ◌-◌, ◌*◌, ◌/◌, ◌%◌, ◌^◌}
use mathlib.Core.Option.{Option, none, some}
use flock.Base.Tests.{ltb, if◌then◌else◌}

-- `Duration::from_secs`
abbrev pub from_secs : ℕ → ℕ
from_secs s = s * 1000000000

-- `Duration::from_millis`
abbrev pub from_millis : ℕ → ℕ
from_millis ms = ms * 1000000

-- `Duration::as_secs`
abbrev pub as_secs : ℕ → ℕ
as_secs d = d / 1000000000

-- `Duration::as_millis`
abbrev pub as_millis : ℕ → ℕ
as_millis d = d / 1000000

-- `Instant - Duration` panics where the result would lie before the earliest instant.
abbrev pub before : ℕ → ℕ → Option ℕ
before now d = if ltb now d then none else some (now - d)

-- the latest instant of a Unix platform, whose instants have 64-bit signed seconds
abbrev pub last_instant : ℕ
last_instant = 2 ^ 64 * 1000000000 - 1

-- `Instant + Duration` panics where the result would lie past the latest instant.
abbrev pub after : ℕ → ℕ → Option ℕ
after now d = if ltb last_instant (now + d) then none else some (now + d)

-- unsigned arithmetic of a release build wraps
abbrev pub u32 : ℕ → ℕ
u32 n = n % 2 ^ 32

-- `usize` is 64 bits wide
abbrev pub usize : ℕ → ℕ
usize n = n % 2 ^ 64

-- `as u64`
abbrev pub u64 : ℕ → ℕ
u64 n = n % 2 ^ 64

abbrev pub u64_max : ℕ
u64_max = 2 ^ 64 - 1

-- `u64::saturating_add` and `u64::saturating_mul`
abbrev pub sat_u64 : ℕ → ℕ
sat_u64 n = if ltb u64_max n then u64_max else n
