-- ===== src/Birthday/Upcoming.antt =====
-- src/services/birthday.rs: the next celebration of a birthday, and the days until it.
use native.Mathlib.Nat.{le_refl, le_trans}
use native.Mathlib.Decide.{le_ind}
use birthday_role.Prelude.{ℕ, suc, ◌+◌, ◌≤◌, ◌<◌, ◌≡◌, ◌⊎◌, inl, inr, true, false, arith, ltb, leb}
use birthday_role.Prelude.Int.{◌-ℤ◌}
use birthday_role.Calendar.{
  leap, month_length, days_before_year, ordinal, max_year, IsDate, Calendar, IsOn, IsGregorian,
}
use birthday_role.Calendar.Ordinal.{days_before_year-suc, days_before_month-leap, ordinal_range}
use birthday_role.Birthday.Dates.{IsRecurring, observed, observed-IsDate}

-- What the comparisons of two dates come to, by their day numbers.
module _ (c : Calendar) (g : IsGregorian c) {s t : c.Date} {y m d y' m' d' : ℕ} (p : IsOn c s y m d)
    (q : IsOn c t y' m' d') where
  pub ge-leb : c.ge s t ≡ leb (ordinal y' m' d') (ordinal y m d)
  unfolding ◌-ℤ◌
  ge-leb = rw ((g.compares s t).0, g.differs s t y m d y' m' d' p q) (ground arith)

  pub gt-ltb : c.gt s t ≡ ltb (ordinal y' m' d') (ordinal y m d)
  unfolding ◌-ℤ◌
  gt-ltb = rw ((g.compares s t).1, g.differs s t y m d y' m' d' p q) (ground arith)

leap_apart : (y : ℕ) → leap y ≡ true → leap (suc y) ≡ false
unfolding leap
leap_apart y h = ground arith

-- The day number of the celebration in a year.
abbrev pub celebration : ℕ → ℕ → ℕ → ℕ
celebration m d y = ordinal y m (observed y m d)

module _ (m d : ℕ) (r : IsRecurring m d) where
  -- From one celebration to the next it is 365 or 366 days.
  pub anniversary :
      (y : ℕ)
      → 1 ≤ y
      → (celebration m d y + 365 ≤ celebration m d (suc y))
        × (celebration m d (suc y) ≤ celebration m d y + 366)
  unfolding ordinal month_length
  anniversary y h = ground (
    arith,
    days_before_year-suc y h,
    days_before_month-leap (leap y) m,
    days_before_month-leap (leap (suc y)) m,
    leap_apart y,
  )

  celebration_mono : (y z : ℕ) → 1 ≤ y → y ≤ z → celebration m d y ≤ celebration m d z
  celebration_mono y z h le =
      le_ind (λ k. celebration m d y ≤ celebration m d k) (le_refl _)
        (λ k yk ih. omega (arith, anniversary k (le_trans h yk))) z le

days_before_year_mono : (y z : ℕ) → 1 ≤ y → y ≤ z → days_before_year y ≤ days_before_year z
days_before_year_mono y z h le =
    le_ind (λ k. days_before_year y ≤ days_before_year k) (le_refl _)
      (λ k yk ih. ground (arith, days_before_year-suc k (le_trans h yk))) z le

ordinal-gt : (y m d : ℕ) → 1 ≤ d → days_before_year y < ordinal y m d
unfolding ordinal
ordinal-gt y m d h = omega arith

observed_pos : (y m d : ℕ) → IsRecurring m d → 1 ≤ observed y m d
observed_pos y m d r = ground arith

side : (y z : ℕ) → (y < z) ⊎ (z ≤ y)
side y z = omega arith

-- Year `ny` has the first celebration from day number `today` on, and it is at most 365 days away.
pub record IsUpcoming (m d today ny : ℕ) : Type 0 where
  pub reached : today ≤ celebration m d ny
  pub first :
      (y : ℕ)
      → (1 ≤ y) × (y ≤ max_year)
      → today ≤ celebration m d y
      → celebration m d ny ≤ celebration m d y
  pub within : celebration m d ny ≤ today + 365

module _ (m d : ℕ) (r : IsRecurring m d) (y0 m0 d0 : ℕ) (v : IsDate y0 m0 d0) where
  pub this_year-IsUpcoming :
      ordinal y0 m0 d0 ≤ celebration m d y0 → IsUpcoming m d (ordinal y0 m0 d0) y0
  this_year-IsUpcoming le = record { reached = le; first = first; within = within }
    where
      within : celebration m d y0 ≤ ordinal y0 m0 d0 + 365
      within = ground (
        arith,
        ordinal_range y0 m0 d0 v,
        ordinal_range y0 m (observed y0 m d) (observed-IsDate y0 m d v.year_in r),
        days_before_year-suc y0 v.year_in.0,
      )

      first :
          (y : ℕ)
          → (1 ≤ y) × (y ≤ max_year)
          → ordinal y0 m0 d0 ≤ celebration m d y
          → celebration m d y0 ≤ celebration m d y
      first y h reached = elim (side y y0) [
        | inl before ↦ absurd (
            omega (
              arith,
              ordinal_range y m (observed y m d) (observed-IsDate y m d h r),
              ordinal_range y0 m0 d0 v,
              days_before_year_mono (suc y) y0 (omega arith) before,
            ))
        | inr after ↦ celebration_mono m d r y0 y v.year_in.0 after
      ]

  -- The celebration of the next year is past the end of this one.
  pub year_later : ordinal y0 m0 d0 < celebration m d (suc y0)
  year_later = ground (
    arith,
    ordinal_range y0 m0 d0 v,
    ordinal-gt (suc y0) m (observed (suc y0) m d) (observed_pos (suc y0) m d r),
  )

  pub next_year-IsUpcoming :
      celebration m d y0 < ordinal y0 m0 d0 → IsUpcoming m d (ordinal y0 m0 d0) (suc y0)
  next_year-IsUpcoming passed = record {
    reached = omega (arith, year_later);
    first = first;
    within = omega (arith, anniversary m d r y0 v.year_in.0);
  }
    where
      first :
          (y : ℕ)
          → (1 ≤ y) × (y ≤ max_year)
          → ordinal y0 m0 d0 ≤ celebration m d y
          → celebration m d (suc y0) ≤ celebration m d y
      first y h reached' = elim (side y (suc y0)) [
        | inl before ↦ absurd (omega (arith, celebration_mono m d r y y0 h.0 (omega arith)))
        | inr after ↦ celebration_mono m d r (suc y0) y (omega arith) after
      ]
