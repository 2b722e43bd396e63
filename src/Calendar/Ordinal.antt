-- ===== src/Calendar/Ordinal.antt =====
-- Day numbers within a year and across years.
use birthday_role.Prelude.{
  ℕ, zero, suc, ◌+◌, ◌≤◌, ◌<◌, ◌≡◌, refl, Bool, true, false, arith, if◌then◌else◌, ap, ◌⊎◌, inl,
  inr, ltb, ◌&&◌,
}
use birthday_role.Calendar.{
  leap, month_length, days_before_month, days_before_year, ordinal, IsDate,
}
use native.Mathlib.Nat.{le_refl, le_trans}
use native.Mathlib.Decide.{le_ind}

lt_cases : (m n : ℕ) → (m < n) ⊎ ((m ≡ n) ⊎ (n < m))
lt_cases m n = omega arith

pub days_before_year-suc :
    (y : ℕ) → 1 ≤ y → days_before_year (suc y) ≡ days_before_year y + (if leap y then 366 else 365)
unfolding days_before_year leap
days_before_year-suc y h = ground arith

pub twelve_months : (l : Bool) → days_before_month l 13 ≡ (if l then 366 else 365)
unfolding days_before_month month_length
twelve_months true = refl
twelve_months false = refl

pub days_before_month-suc :
    (l : Bool) (m : ℕ)
    → 1 ≤ m
    → days_before_month l (suc m) ≡ days_before_month l m + month_length l m
unfolding days_before_month
days_before_month-suc l zero h = omega arith
days_before_month-suc l (suc m) h = refl

pub days_before_month_mono :
    (l : Bool) (m n : ℕ) → 1 ≤ m → m ≤ n → days_before_month l m ≤ days_before_month l n
days_before_month_mono l m n h le =
    le_ind (λ k. days_before_month l m ≤ days_before_month l k) (le_refl _)
      (λ k mk ih. omega (arith, days_before_month-suc l k (le_trans h mk))) n le

-- A leap year has one more day before each month after February.
pub days_before_month-leap :
    (l : Bool) (m : ℕ)
    → days_before_month l m ≡ days_before_month false m + (if l && ltb 2 m then 1 else 0)
unfolding days_before_month month_length
days_before_month-leap l zero = ground arith
days_before_month-leap l (suc zero) = ground arith
days_before_month-leap l (suc (suc m)) = ground (arith, days_before_month-leap l (suc m))

-- A date of an earlier month comes first.
pub earlier_month :
    (l : Bool) (m n d e : ℕ)
    → 1 ≤ m
    → m < n
    → d ≤ month_length l m
    → 1 ≤ e
    → days_before_month l m + d < days_before_month l n + e
earlier_month l m n d e h lt hd he =
    omega (arith, days_before_month-suc l m h, days_before_month_mono l (suc m) n (omega arith) lt)

-- The days of a year have the numbers that follow the year before.
pub ordinal_range :
    (y m d : ℕ)
    → IsDate y m d
    → (days_before_year y < ordinal y m d) × (ordinal y m d ≤ days_before_year (suc y))
unfolding ordinal
ordinal_range y m d v = ground (
  arith,
  days_before_year-suc y v.year_in.0,
  twelve_months (leap y),
  earlier_month (leap y) m 13 d 1 v.month_in.0 (omega arith) v.day_in.1 (omega arith),
)

-- Within a year the number determines the date.
pub ordinal_inj :
    (y m d m' d' : ℕ)
    → IsDate y m d
    → IsDate y m' d'
    → ordinal y m d ≡ ordinal y m' d'
    → (m ≡ m') × (d ≡ d')
unfolding ordinal
ordinal_inj y m d m' d' v w e = elim (lt_cases m m') [
  | inl lt ↦
      absurd (omega (arith, earlier_month (leap y) m m' d d' v.month_in.0 lt v.day_in.1 w.day_in.0))
  | inr (inl same) ↦ (same, omega (arith, ap (days_before_month (leap y)) same))
  | inr (inr gt) ↦
      absurd (omega (arith, earlier_month (leap y) m' m d' d w.month_in.0 gt w.day_in.1 v.day_in.0))
]
