-- ===== src/Scheduler/Turns.antt =====
-- The order in which next_ready_after of kernel/src/scheduler.c gives threads their turn.
use reborn_os.Prelude.{
  ℕ, ◌+◌, ◌-◌, ◌%◌, ◌≤◌, ◌<◌, ◌≡◌, refl, Bool, true, false, not, ◌&&◌, Option, none, some, is_none,
  arith, subst,
}
use reborn_os.Scheduler.Defs.{
  Thread, ThreadState, active, zombie, unused, is_active, is_ready, slot_at, next_ready_after,
}
use reborn_os.Scheduler.Ready.{
  Found, at, nowhere, next_ready_after-Found, round_for, slot_at-round_for, slot_at-lt,
}

-- A thread that a core may take: active, on no core, and no idle thread.
pub record IsReady (t : Thread) : Type 0 where
  pub runs : t.state ≡ active
  pub on_no_core : t.running_on_core ≡ none
  pub no_idle_thread : t.is_idle ≡ false

-- The place of slot `t` in a round through the 32 slots, which starts behind `start`, or at slot 0.
abbrev pub turn : Option ℕ → ℕ → ℕ
turn none t = t
turn (some start) t = (t + 31 - start % 32) % 32

-- The first ready slot of the round, or none if no slot is ready.
pub data First (start : Option ℕ) (threads : ℕ → Thread) : Option ℕ → Type 0 where
  first :
      (t : ℕ)
      → t < 32
      → IsReady (threads t)
      → ((u : ℕ) → u < 32 → turn start u < turn start t → ¬ IsReady (threads u))
      → First start threads (some t)
  none_ready : ((u : ℕ) → u < 32 → ¬ IsReady (threads u)) → First start threads none

ready_parts :
    (s : ThreadState) (c : Option ℕ) (i : Bool)
    → (is_active s && (is_none c && not i)) ≡ true
    → (s ≡ active) × (c ≡ none) × (i ≡ false)
ready_parts active none false e = (refl, refl, refl)
ready_parts active none true e = cc
ready_parts active (some c) i e = cc
ready_parts zombie c i e = cc
ready_parts unused c i e = cc

is_ready-IsReady : (t : Thread) → is_ready t ≡ true → IsReady t
is_ready-IsReady t e =
    let (s, c, i) = ready_parts t.state t.running_on_core t.is_idle e in
    record { runs = s; on_no_core = c; no_idle_thread = i }

not-IsReady : (t : Thread) → is_ready t ≡ false → ¬ IsReady t
not-IsReady t e r =
    let found : is_ready t ≡ true = rw (r.runs, r.on_no_core, r.no_idle_thread) refl in cc

-- A slot with an earlier turn is looked at in an earlier round.
turn-round : (start : Option ℕ) (u : ℕ) → round_for start u ≡ turn start u + 1
turn-round none u = refl
turn-round (some start) u = refl

turn-slot_at : (start : Option ℕ) (k : ℕ) → 1 ≤ k → k < 33 → turn start (slot_at start k) + 1 ≡ k
turn-slot_at none k lo hi = omega arith
turn-slot_at (some start) k lo hi = omega arith

Found-First :
    {start : Option ℕ} {threads : ℕ → Thread} {r : Option ℕ}
    → Found start threads 1 32 r
    → First start threads r
Found-First {start} {threads} (at k (lo, hi) ready before) =
    first (slot_at start k) (slot_at-lt start k)
      (is_ready-IsReady (threads (slot_at start k)) ready)
      λ u l earlier.
        let (same, one, top) = slot_at-round_for start u l in
        let round = turn-round start u in
        let here = turn-slot_at start k lo hi in
        subst (λ q. ¬ IsReady (threads q)) same
          (not-IsReady (threads (slot_at start (round_for start u)))
            (before (round_for start u) one (omega arith)))
Found-First {start} {threads} (nowhere before) = none_ready λ u l.
    let (same, one, top) = slot_at-round_for start u l in
    subst (λ q. ¬ IsReady (threads q)) same
      (not-IsReady (threads (slot_at start (round_for start u)))
        (before (round_for start u) one top))

-- next_ready_after gives the first slot that is active, on no core and no idle thread, in a round
-- through all 32 slots that starts behind its start, or at slot 0 for -1; it gives -1 only if
-- there is no such slot.
pub next_ready_after-First :
    (start : Option ℕ) (threads : ℕ → Thread) → First start threads (next_ready_after start threads)
next_ready_after-First start threads = Found-First (next_ready_after-Found start threads)
