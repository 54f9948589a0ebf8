-- ===== src/Scheduler/Ready.antt =====
-- next_ready_after and the free-slot search of kernel/src/scheduler.c.
use native.Mathlib.Decide.{dec_lt}
use reborn_os.Prelude.{
  ℕ, zero, suc, ◌+◌, ◌-◌, ◌%◌, ◌≤◌, ◌<◌, ◌≡◌, sym, ap, ◌∙◌, true, false, Option, none, some, arith,
  Bool-cases, inl, inr,
}
use reborn_os.Scheduler.Defs.{
  Thread, max_threads, slot_at, is_ready, ready_loop, next_ready_after, free_slot, is_unused,
}

-- What the scan over rounds `i` to `i + n` finds: the first ready slot, or none.
pub data Found (start : Option ℕ) (threads : ℕ → Thread) (i n : ℕ) : Option ℕ → Type 0 where
  at :
      (k : ℕ)
      → (i ≤ k) × (k < i + n)
      → is_ready (threads (slot_at start k)) ≡ true
      → ((j : ℕ) → i ≤ j → j < k → is_ready (threads (slot_at start j)) ≡ false)
      → Found start threads i n (some (slot_at start k))
  nowhere :
      ((j : ℕ) → i ≤ j → j < i + n → is_ready (threads (slot_at start j)) ≡ false)
      → Found start threads i n none

extend :
    (start : Option ℕ) (threads : ℕ → Thread) (i n : ℕ) {r : Option ℕ}
    → is_ready (threads (slot_at start i)) ≡ false
    → Found start threads (i + 1) n r
    → Found start threads i (suc n) r
extend start threads i n h (at k (lo, hi) r f) =
    at k (omega arith, omega arith) r
      λ j a b. elim (dec_lt i j) [
        | yes p ↦ f j (omega arith) b
        | no p ↦ (let e : j ≡ i = omega arith in rw e h)
      ]
extend start threads i n h (nowhere f) = nowhere λ j a b. elim (dec_lt i j) [
  | yes p ↦ f j (omega arith) (omega arith)
  | no p ↦ (let e : j ≡ i = omega arith in rw e h)
]

ready_loop-Found :
    (n i : ℕ) (start : Option ℕ) (threads : ℕ → Thread)
    → Found start threads i n (ready_loop n i start threads)
unfolding ready_loop
ready_loop-Found zero i start threads = nowhere λ j a b. absurd (omega arith)
ready_loop-Found (suc n) i start threads =
    elim (Bool-cases (is_ready (threads (slot_at start i)))) [
      | inl e ↦ rw e (at i (omega arith, omega arith) e λ j a b. absurd (omega arith))
      | inr e ↦ rw e (extend start threads i n e (ready_loop-Found n (i + 1) start threads))
    ]

pub next_ready_after-Found :
    (start : Option ℕ) (threads : ℕ → Thread)
    → Found start threads 1 max_threads (next_ready_after start threads)
unfolding next_ready_after
next_ready_after-Found start threads = ready_loop-Found max_threads 1 start threads

-- Every slot is looked at in one of the 32 rounds.
abbrev pub round_for : Option ℕ → ℕ → ℕ
round_for none t = t + 1
round_for (some start) t = (t + 31 - start % 32) % 32 + 1

pub slot_at-round_for :
    (start : Option ℕ) (t : ℕ)
    → t < max_threads
    → (slot_at start (round_for start t) ≡ t)
      × (1 ≤ round_for start t)
      × (round_for start t < 1 + max_threads)
slot_at-round_for none t h = omega arith
slot_at-round_for (some start) t h = omega arith

pub slot_at-lt : (start : Option ℕ) (k : ℕ) → slot_at start k < max_threads
slot_at-lt none k = omega arith
slot_at-lt (some start) k = omega arith

Found-ready :
    {start : Option ℕ} {threads : ℕ → Thread} {r : Option ℕ} (t : ℕ)
    → Found start threads 1 max_threads r
    → r ≡ some t
    → (is_ready (threads t) ≡ true) × (t < max_threads)
Found-ready {start} {threads} t (at k b r f) e =
    let same : slot_at start k ≡ t = cc in (rw (← same) r, rw (← same) (slot_at-lt start k))
Found-ready t (nowhere f) e = cc

Found-none :
    {start : Option ℕ} {threads : ℕ → Thread} {r : Option ℕ} (t : ℕ)
    → Found start threads 1 max_threads r
    → r ≡ none
    → t < max_threads
    → is_ready (threads t) ≡ false
Found-none t (at k b r f) e h = cc
Found-none {start} {threads} t (nowhere f) e h =
    let (same, lo, hi) = slot_at-round_for start t h in
    ap (λ k. is_ready (threads k)) (sym same) ∙ f (round_for start t) lo hi

-- What it returns is a slot of the table that is ready.
pub next_ready_after-ready :
    (start : Option ℕ) (threads : ℕ → Thread) (t : ℕ)
    → next_ready_after start threads ≡ some t
    → (is_ready (threads t) ≡ true) × (t < max_threads)
next_ready_after-ready start threads t = Found-ready t (next_ready_after-Found start threads)

-- If next_ready_after returns -1, no slot of the table is ready.
pub next_ready_after-none :
    (start : Option ℕ) (threads : ℕ → Thread) (t : ℕ)
    → next_ready_after start threads ≡ none
    → t < max_threads
    → is_ready (threads t) ≡ false
next_ready_after-none start threads t = Found-none t (next_ready_after-Found start threads)

free_slot_from :
    (n i t : ℕ) (threads : ℕ → Thread)
    → free_slot n i threads ≡ some t
    → (is_unused (threads t).state ≡ true) × (t < i + n)
unfolding free_slot
free_slot_from zero i t threads h = cc
free_slot_from (suc n) i t threads h = ground (arith, free_slot_from n (i + 1) t threads)

-- The slot that thread_create_ex takes is unused.
pub free_slot-unused :
    (t : ℕ) (threads : ℕ → Thread)
    → free_slot max_threads 0 threads ≡ some t
    → (is_unused (threads t).state ≡ true) × (t < max_threads)
free_slot-unused t threads h = free_slot_from max_threads 0 t threads h
