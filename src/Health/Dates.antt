-- ===== src/Health/Dates.antt =====
-- proxy/src/health.rs: the day numbers of the legacy import's time stamps, and its zone offsets.
pub mod Calendar
use flock.Base.{
  ℕ, ◌+◌, ◌-◌, ◌*◌, ◌/◌, ◌%◌, Bool, ◌&&◌, not, Option, none, some, leb, if◌then◌else◌, ℤ, pos,
  negsuc, leb_ℤ,
}

abbrev pub pos_part : ℤ → ℕ
pos_part (pos n) = n
pos_part (negsuc n) = 0

-- `(lo..=hi).contains(&z)`
abbrev pub within : ℕ → ℕ → ℤ → Bool
within lo hi z = leb_ℤ (pos lo) z && leb_ℤ z (pos hi)

-- the arithmetic past the range tests, where nothing is negative
unfoldable pub civil_days : ℕ → ℕ → ℕ → ℕ
civil_days y0 m d =
    let y = if leb m 2 then y0 - 1 else y0 in
    let era = y / 400 in
    let yoe = y % 400 in
    let mp = (m + 9) % 12 in
    let doy = (153 * mp + 2) / 5 + d - 1 in
    let doe = yoe * 365 + yoe / 4 - yoe / 100 + doy in era * 146097 + doe - 719468

unfoldable pub days_from_civil : ℤ → ℤ → ℤ → Option ℕ
unfolding civil_days
days_from_civil y m d =
    if not (within 2000 2100 y && within 1 12 m && within 1 31 d)
    then none
    else some (civil_days (pos_part y) (pos_part m) (pos_part d))
