-- ===== src/Health/Dates/Calendar.antt =====
-- Day numbers by counting the days of the calendar, and `days_from_civil` of proxy/src/health.rs.
use flock.Base.{
  ℕ, zero, suc, ◌+◌, ◌-◌, ◌*◌, ◌/◌, ◌%◌, ◌≤◌, ◌<◌, ◌≡◌, refl, ◌∙◌, Bool, true, false, ◌&&◌, ◌||◌,
  not, some, leb, ◌==◌, dec_le, if◌then◌else◌, pos, arith,
}
use flock.Health.Dates.{civil_days, days_from_civil}

abbrev pub is_leap : ℕ → Bool
is_leap y = (y % 4 == 0) && (not (y % 100 == 0) || y % 400 == 0)

abbrev pub days_in_month : ℕ → ℕ → ℕ
days_in_month y m =
    if m == 2
    then (if is_leap y then 29 else 28)
    else (if (m == 4) || (m == 6) || (m == 9) || (m == 11) then 30 else 31)

-- the days of the first `n` years from 1970
unfoldable pub days_of_years : ℕ → ℕ
days_of_years zero = 0
days_of_years (suc n) = days_of_years n + (if is_leap (1970 + n) then 366 else 365)

-- the days of the first `n` months of a year
unfoldable pub days_of_months : ℕ → ℕ → ℕ
days_of_months y zero = 0
days_of_months y (suc n) = days_of_months y n + days_in_month y (suc n)

-- the days from 1970-01-01 to the `d`-th day from the first of month `m`
unfoldable pub day_number : ℕ → ℕ → ℕ → ℕ
unfolding days_of_years days_of_months
day_number y m d = days_of_years (y - 1970) + days_of_months y (m - 1) + (d - 1)

days_of_years_lem :
    (n : ℕ) → days_of_years n + 477 + (1969 + n) / 100 ≡ 365 * n + (1969 + n) / 4 + (1969 + n) / 400
unfolding days_of_years
days_of_years_lem zero = refl
days_of_years_lem (suc n) = ground (arith, days_of_years_lem n)

abbrev leap_day : ℕ → ℕ
leap_day y = if is_leap y then 1 else 0

days_of_months_lem :
    (y n : ℕ)
    → n < 12
    → days_of_months y n ≡ (if leb n 1 then 31 * n else (153 * (n - 2) + 2) / 5 + 59 + leap_day y)
unfolding days_of_months
days_of_months_lem y zero hi = refl
days_of_months_lem y (suc zero) hi = refl
days_of_months_lem y (suc (suc zero)) hi = ground arith
days_of_months_lem y (suc (suc (suc zero))) hi = ground arith
days_of_months_lem y (suc (suc (suc (suc zero)))) hi = ground arith
days_of_months_lem y (suc (suc (suc (suc (suc zero))))) hi = ground arith
days_of_months_lem y (suc (suc (suc (suc (suc (suc zero)))))) hi = ground arith
days_of_months_lem y (suc (suc (suc (suc (suc (suc (suc zero))))))) hi = ground arith
days_of_months_lem y (suc (suc (suc (suc (suc (suc (suc (suc zero)))))))) hi = ground arith
days_of_months_lem y (suc (suc (suc (suc (suc (suc (suc (suc (suc zero))))))))) hi = ground arith
days_of_months_lem y (suc (suc (suc (suc (suc (suc (suc (suc (suc (suc zero)))))))))) hi =
    ground arith
days_of_months_lem y (suc (suc (suc (suc (suc (suc (suc (suc (suc (suc (suc zero))))))))))) hi =
    ground arith
days_of_months_lem y (suc (suc (suc (suc (suc (suc (suc (suc (suc (suc (suc (suc n)))))))))))) hi =
    absurd (omega arith)

era_lem :
    (y : ℕ)
    → y / 400 * 146097 + (y % 400 * 365 + y % 400 / 4 - y % 400 / 100)
      ≡ 365 * y + y / 4 + y / 400 - y / 100
era_lem y = omega arith

year_length : (b : Bool) → (if b then 366 else 365) ≡ 365 + (if b then 1 else 0)
year_length true = refl
year_length false = refl

-- the days before January and those before March of a year, in the terms of the era
january_lem :
    (n : ℕ)
    → 365 * (1969 + n) + (1969 + n) / 4 + (1969 + n) / 400 - (1969 + n) / 100
      ≡ days_of_years n + 719162
january_lem n = omega (arith, days_of_years_lem n)

march_lem :
    (n : ℕ)
    → 365 * (1970 + n) + (1970 + n) / 4 + (1970 + n) / 400 - (1970 + n) / 100
      ≡ days_of_years n + leap_day (1970 + n) + 719527
unfolding days_of_years
march_lem n =
    let l = year_length (is_leap (1970 + n)) in omega (arith, days_of_years_lem (suc n), l)

last_year : (n : ℕ) → 1970 + n - 1 ≡ 1969 + n
last_year n = omega arith

years_on : (n : ℕ) → 1970 + n - 1970 ≡ n
years_on n = omega arith

-- the day of the year, past the days before it in the terms of the era
settled :
    (a b years before start d : ℕ)
    → a + b + start ≡ years + before + 719468
    → 1 ≤ d
    → a + (b + (start + d - 1)) - 719468 ≡ years + before + (d - 1)
settled a b years before start d h hd = omega arith

january :
    {e : ℕ} (years before start : ℕ)
    → e ≡ years + 719162
    → start ≡ before + 306
    → e + start ≡ years + before + 719468
january years before start h k = omega arith

-- January and February
early_months :
    (n m d : ℕ) → 1 ≤ m → m ≤ 2 → 1 ≤ d → civil_days (1970 + n) m d ≡ day_number (1970 + n) m d
unfolding civil_days day_number days_of_months
early_months n zero d lo hi hd = absurd (omega arith)
early_months n (suc zero) d lo hi hd =
    rw (last_year n, years_on n)
      (settled _ _ (days_of_years n) 0 306 d
        (january (days_of_years n) 0 306 (era_lem (1969 + n) ∙ january_lem n) refl) hd)
early_months n (suc (suc zero)) d lo hi hd =
    rw (last_year n, years_on n)
      (settled _ _ (days_of_years n) 31 337 d
        (january (days_of_years n) 31 337 (era_lem (1969 + n) ∙ january_lem n) refl) hd)
early_months n (suc (suc (suc m))) d lo hi hd = absurd (omega arith)

late_index : (m : ℕ) → leb (2 + m) 1 ≡ false
late_index m = ground arith

before_index : (m : ℕ) → 2 + m - 2 ≡ m
before_index m = omega arith

third : (m : ℕ) → 3 + m - 1 ≡ 2 + m
third m = omega arith

shifted :
    (y m : ℕ)
    → (if leb (2 + m) 1 then 31 * (2 + m) else (153 * (2 + m - 2) + 2) / 5 + 59 + leap_day y)
      ≡ (153 * m + 2) / 5 + 59 + leap_day y
shifted y m = rw (late_index m, before_index m) refl

months_before :
    (y m : ℕ) → m ≤ 9 → days_of_months y (3 + m - 1) ≡ (153 * m + 2) / 5 + 59 + leap_day y
months_before y m h = rw (third m) (days_of_months_lem y (2 + m) (omega arith) ∙ shifted y m)

march :
    {e : ℕ} (years leap start : ℕ)
    → e ≡ years + leap + 719527
    → e + start ≡ years + (start + 59 + leap) + 719468
march years leap start h = omega arith

month_index : (m : ℕ) → m ≤ 9 → (3 + m + 9) % 12 ≡ m
month_index m h = omega arith

late : (m : ℕ) → leb (3 + m) 2 ≡ false
late m = ground arith

from_1970 : (y : ℕ) → 1970 ≤ y → y ≡ 1970 + (y - 1970)
from_1970 y h = omega arith

from_march : (m : ℕ) → 3 ≤ m → m ≡ 3 + (m - 3)
from_march m h = omega arith

late_months :
    (n m d : ℕ) → m ≤ 9 → 1 ≤ d → civil_days (1970 + n) (3 + m) d ≡ day_number (1970 + n) (3 + m) d
unfolding civil_days day_number
late_months n m d hi hd =
    let h = era_lem (1970 + n) ∙ march_lem n in
    rw (late m, month_index m hi, years_on n)
      (settled _ _ (days_of_years n) (days_of_months (1970 + n) (3 + m - 1)) ((153 * m + 2) / 5) d
        (rw (months_before (1970 + n) m hi)
          (march (days_of_years n) (leap_day (1970 + n)) ((153 * m + 2) / 5) h))
        hd)

civil_days-day_number :
    (y m d : ℕ) → 1970 ≤ y → 1 ≤ m → m ≤ 12 → 1 ≤ d → civil_days y m d ≡ day_number y m d
civil_days-day_number y m d hy lo hi hd =
    let e = from_1970 y hy in
    elim (dec_le m 2) [
      | yes le ↦ rw e (early_months (y - 1970) m d lo le hd)
      | no gt ↦
          rw (e, from_march m (omega arith)) (late_months (y - 1970) (m - 3) d (omega arith) hd)
    ]

-- From 2000 to 2100, `days_from_civil` counts the days of the calendar from 1970-01-01: those of
-- the years before, of the months before by the Gregorian leap rule, and of the month. A day up to
-- 31 past the end of its month counts on into the next.
pub days_from_civil-day_number :
    (y m d : ℕ)
    → 2000 ≤ y
    → y ≤ 2100
    → 1 ≤ m
    → m ≤ 12
    → 1 ≤ d
    → d ≤ 31
    → days_from_civil (pos y) (pos m) (pos d) ≡ some (day_number y m d)
unfolding days_from_civil
days_from_civil-day_number y m d y0 y1 m0 m1 d0 d1 =
    ground (arith, civil_days-day_number y m d (omega arith) m0 m1 d0)
