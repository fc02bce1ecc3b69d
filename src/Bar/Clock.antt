-- ===== src/Bar/Clock.antt =====
-- `difftimespec` of slstatus.c, and the times of the main loop.
use slstatus.Prelude.{ℕ, ◌+◌, ◌*◌, ◌/◌, ◌%◌, ◌≤◌, ◌≡◌, arith, if◌then◌else◌, Bool-cases, inl, inr}
use slstatus.Prelude.Int.{ℤ, pos, pos_part, neg_part, ◌+ℤ◌, ◌-ℤ◌, ◌≤ℤ◌, ltb_ℤ, int_laws}

pub record Timespec : Type 0 where
  pub tv_sec : ℤ
  pub tv_nsec : ℤ

abbrev pub giga : ℕ
giga = 1_000_000_000

unfoldable pub difftimespec : Timespec → Timespec → Timespec
difftimespec a b =
    let borrow = ltb_ℤ a.tv_nsec b.tv_nsec in
    record {
      tv_sec = a.tv_sec -ℤ b.tv_sec -ℤ (if borrow then pos 1 else pos 0);
      tv_nsec = a.tv_nsec -ℤ b.tv_nsec +ℤ (if borrow then pos giga else pos 0);
    }

-- The interval of config.def.h, in milliseconds, and `intspec`.
abbrev pub interval : ℕ
interval = 1000

unfoldable pub intspec : Timespec
intspec = record { tv_sec = pos (interval / 1000); tv_nsec = pos (interval % 1000 * 1_000_000) }

-- A time as POSIX wants it: the nanoseconds are less than a second.
pub record IsNormal (t : Timespec) : Type 0 where
  pub low : pos 0 ≤ℤ t.tv_nsec
  pub high : t.tv_nsec ≤ℤ pos 999_999_999

intspec-IsNormal : IsNormal intspec
unfolding intspec
intspec-IsNormal = record { low = omega arith; high = omega arith }

-- The difference of two normal times is normal.
pub difftimespec-IsNormal : (a b : Timespec) → IsNormal a → IsNormal b → IsNormal (difftimespec a b)
unfolding difftimespec ◌+ℤ◌ ◌-ℤ◌
difftimespec-IsNormal a b ha hb = record { low = ground arith; high = ground arith }

-- A time in nanoseconds is `plus` less `minus`.
abbrev pub plus : Timespec → ℕ
plus t = giga * pos_part t.tv_sec + pos_part t.tv_nsec

abbrev pub minus : Timespec → ℕ
minus t = giga * neg_part t.tv_sec + neg_part t.tv_nsec

-- `difftimespec` subtracts exactly: in nanoseconds, its result is the first time less the second.
pub difftimespec-exact :
    (a b : Timespec)
    → let d = difftimespec a b in plus d + minus a + plus b ≡ minus d + plus a + minus b
unfolding difftimespec
difftimespec-exact a b = elim (Bool-cases (ltb_ℤ a.tv_nsec b.tv_nsec)) [
  | inl borrow ↦ rw borrow (omega int_laws)
  | inr enough ↦ rw enough (omega int_laws)
]

-- What `main` computes for nanosleep is valid: for clock readings that are normal, the second not
-- before the first, the wait is normal and at most the interval.
pub wait_valid :
    (start current : Timespec)
    → IsNormal start
    → IsNormal current
    → plus start + minus current ≤ plus current + minus start
    → let wait = difftimespec intspec (difftimespec current start) in
      IsNormal wait × (plus wait ≤ giga + minus wait)
wait_valid start current hs hc later =
    let d = difftimespec current start in
    let hd = difftimespec-IsNormal current start hc hs in
    (
      difftimespec-IsNormal intspec d intspec-IsNormal hd,
      unfold intspec in
          omega (arith, difftimespec-exact current start, difftimespec-exact intspec d),
    )
