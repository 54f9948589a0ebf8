-- ===== src/Scheduler/Fair.antt =====
-- How long a ready thread of kernel/src/scheduler.c waits for its turn on a core.
use native.Mathlib.Decide.{dec_lt}
use reborn_os.Prelude.{
  ℕ, zero, suc, ◌≤◌, ◌<◌, ◌≡◌, refl, ap, ◌∙◌, ◌⊎◌, inl, inr, true, Option, none, some, arith,
}
use reborn_os.Scheduler.Defs.{Thread, max_threads, slot_at, is_ready, next_ready_after}
use reborn_os.Scheduler.Ready.{
  Found, at, nowhere, next_ready_after-Found, round_for, slot_at-round_for,
}

-- The thread that a core runs after `n` picks, when the table is `tables i` at pick `i`.
unfoldable pub current_after : (ℕ → ℕ → Thread) → Option ℕ → ℕ → Option ℕ
current_after tables start zero = start
current_after tables start (suc n) =
    current_after (λ i. tables (suc i)) (next_ready_after start (tables 0)) n

-- The thread whose turn comes is the one that is picked, or the pick is fewer rounds away from it.
abbrev Closer : Option ℕ → ℕ → Option ℕ → Type 0
Closer start t none = ◌≡◌ {A = ℕ} 0 1
Closer start t (some u) = (u ≡ t) ⊎ (round_for (some u) t < round_for start t)

round_for-slot_at :
    (start : Option ℕ) (t k : ℕ)
    → t < max_threads
    → 1 ≤ k
    → k < round_for start t
    → round_for (some (slot_at start k)) t < round_for start t
round_for-slot_at none t k h one l = omega arith
round_for-slot_at (some s) t k h one l = omega arith

Found-Closer :
    {start : Option ℕ} {threads : ℕ → Thread} {r : Option ℕ} (t : ℕ)
    → t < max_threads
    → is_ready (threads t) ≡ true
    → Found start threads 1 max_threads r
    → Closer start t r
Found-Closer {start} {threads} t h ready (at k b r f) =
    let (same, lo, hi) = slot_at-round_for start t h in
    elim (dec_lt k (round_for start t)) [
      | yes before ↦ inr (round_for-slot_at start t k h b.0 before)
      | no after ↦ elim (dec_lt (round_for start t) k) [
        | yes missed ↦
            absurd
              (cc (ap (λ x. is_ready (threads x)) same, f (round_for start t) lo missed, ready))
        | no level ↦
            (let e : k ≡ round_for start t = omega arith in inl (ap (slot_at start) e ∙ same))
      ]
    ]
Found-Closer {start} {threads} t h ready (nowhere f) =
    let (same, lo, hi) = slot_at-round_for start t h in
    absurd (cc (ap (λ x. is_ready (threads x)) same, f (round_for start t) lo hi, ready))

-- What follows from where the first pick went.
picked :
    (n : ℕ) (tables : ℕ → ℕ → Thread) (start : Option ℕ) (t : ℕ) (u : Option ℕ)
    → next_ready_after start (tables 0) ≡ u
    → Closer start t u
    → ((v : ℕ)
        → round_for (some v) t < round_for start t
        → (i : ℕ) × (i < n) × (current_after (λ i. tables (suc i)) (some v) (suc i) ≡ some t))
    → (i : ℕ) × (i < suc n) × (current_after tables start (suc i) ≡ some t)
unfolding current_after
picked n tables start t none e c rest = absurd (omega arith)
picked n tables start t (some u) e (inl same) rest = (0, omega arith, e ∙ ap some same)
picked n tables start t (some u) e (inr less) rest =
    let (i, l, there) = rest u less in
    (suc i, omega arith, ap (λ s. current_after (λ i. tables (suc i)) s (suc i)) e ∙ there)

served :
    (n : ℕ) (tables : ℕ → ℕ → Thread) (start : Option ℕ) (t : ℕ)
    → t < max_threads
    → round_for start t ≤ n
    → ((i : ℕ) → i < n → is_ready (tables i t) ≡ true)
    → (i : ℕ) × (i < n) × (current_after tables start (suc i) ≡ some t)
unfolding current_after
served zero tables start t h r ready =
    absurd (let (same, lo, hi) = slot_at-round_for start t h in omega arith)
served (suc n) tables start t h r ready =
    let closer =
      Found-Closer t h (ready 0 (omega arith)) (next_ready_after-Found start (tables 0)) in
    picked n tables start t (next_ready_after start (tables 0)) refl closer λ u less.
      served n (λ i. tables (suc i)) (some u) t h (omega arith) λ i l. ready (suc i) (omega arith)

-- A thread of the table that is ready at each of 32 picks of a core in a row, whatever else
-- happens to the table between them, is picked in one of them: no thread starves.
pub served_in_turn :
    (tables : ℕ → ℕ → Thread) (start : Option ℕ) (t : ℕ)
    → t < max_threads
    → ((i : ℕ) → i < max_threads → is_ready (tables i t) ≡ true)
    → (i : ℕ) × (i < max_threads) × (current_after tables start (suc i) ≡ some t)
served_in_turn tables start t h ready =
    let (same, lo, hi) = slot_at-round_for start t h in
    served max_threads tables start t h (omega arith) ready
