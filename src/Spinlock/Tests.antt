-- ===== src/Spinlock/Tests.antt =====
-- Cores 0 and 1 at the lock of kernel/src/spinlock.c.
use reborn_os.Prelude.{ℕ, ◌≡◌, ◌⊎◌, inr, refl}
use reborn_os.Spinlock.Defs.{holds, Lock, access, step, initial, Reach, start, later}
use reborn_os.Spinlock.Exclusion.{mutual_exclusion, no_deadlock}

-- Core 0 calls and takes the lock; core 1 calls, misses and spins.
abbrev contended : Lock
contended = step 1 (step 1 (step 0 (step 0 initial)))

contended-Reach : Reach contended
contended-Reach = later 1 (later 1 (later 0 (later 0 start)))

mutual_exclusion_example : ◌≡◌ {A = ℕ} 0 0
unfolding step access
mutual_exclusion_example = mutual_exclusion contended-Reach 0 0 refl refl

-- Core 0 has released the lock.
abbrev released : Lock
released = step 0 contended

no_deadlock_example :
    ((holder : ℕ) × (released.place holder ≡ holds))
    ⊎ (((step 1 released).place 1 ≡ holds) ⊎ ((step 1 (step 1 released)).place 1 ≡ holds))
unfolding step access
no_deadlock_example = no_deadlock (later 0 contended-Reach) 1 (inr refl)
