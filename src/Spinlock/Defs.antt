-- ===== src/Spinlock/Defs.antt =====
-- spinlock_acquire and spinlock_release of kernel/src/spinlock.c, one access of the lock at a time, on
-- any number of cores in any order.
use reborn_os.Prelude.{ℕ, Bool, true, false, ◌==◌, if◌then◌else◌, put}

-- Where a core stands: outside, before the xchg of spinlock_acquire, in its inner loop, or between the
-- return of spinlock_acquire and the store of spinlock_release.
pub data Place : Type 0 where
  outside claims spins holds : Place

abbrev pub is_holds : Place → Bool
is_holds holds = true
is_holds _ = false

-- The word of the lock, and the cores.
pub record Lock : Type 0 where
  pub locked : ℕ
  pub place : ℕ → Place

-- What one access does to the word, and where the core stands after it: the call, the xchg with 1, the
-- test of the inner loop, the store of 0.
unfoldable pub access : ℕ → Place → ℕ × Place
access locked outside = (locked, claims)
access locked claims = (1, if locked == 0 then holds else spins)
access locked spins = (locked, if locked == 0 then claims else spins)
access locked holds = (0, outside)

unfoldable pub step : ℕ → Lock → Lock
step core l =
    let (locked, place) = access l.locked (l.place core) in
    record { locked = locked; place = put l.place core place }

-- SPINLOCK_INIT, with no core near the lock.
abbrev pub initial : Lock
initial = record { locked = 0; place = λ core. outside }

pub data Reach : Lock → Type 0 where
  start : Reach initial
  later : {l : Lock} (core : ℕ) → Reach l → Reach (step core l)
