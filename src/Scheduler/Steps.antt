-- ===== src/Scheduler/Steps.antt =====
-- schedule, scheduler_start and the switch of kernel/src/scheduler.c against `IsSound`.
use reborn_os.Prelude.{
  ℕ, ◌≡◌, ◌≢◌, refl, sym, ap, ◌∙◌, subst, true, false, ◌&&◌, not, Option, none, some, leb, ◌==◌,
  if◌then◌else◌, put, arith, Bool-cases, Option-cases, inl, inr, ok, panic, ok-injective,
}
use reborn_os.Scheduler.Defs.{
  Sched, Switch, stay, leave, reap, is_zombie, is_ready, assign, switch_to, choose, schedule,
  prev_is_zombie, next_ready_after, no_idle_thread,
}
use reborn_os.Scheduler.Ready.{next_ready_after-ready}
use reborn_os.Scheduler.Exclusive.{
  IsSound, Takeable, ready-Takeable, idle-Takeable, assign-IsSound, retire-IsSound, pending-IsSound,
  save-IsSound,
}

state-assign : (s : Sched) (c t p : ℕ) → ((assign c t s).threads p).state ≡ (s.threads p).state
unfolding assign
state-assign s c t p = ground arith

running-assign :
    (s : Sched) (c t p : ℕ)
    → p ≢ t
    → ((assign c t s).threads p).running_on_core ≡ (s.threads p).running_on_core
unfolding assign
running-assign s c t p h = ground arith

current-assign :
    (s : Sched) (c t d : ℕ)
    → (assign c t s).current_thread d ≡ (if d == c then some t else s.current_thread d)
unfolding assign
current-assign s c t d = refl

module _ (c : ℕ) (s : Sched) where
  choose_stay :
      prev_is_zombie (s.current_thread c) s ≡ false
      → choose c (s.current_thread c) none s ≡ ok (stay, s)
  unfolding choose
  choose_stay e = rw e

  choose_no_idle :
      prev_is_zombie (s.current_thread c) s ≡ true
      → s.idle_tid c ≡ none
      → choose c (s.current_thread c) none s ≡ panic no_idle_thread
  unfolding choose
  choose_no_idle e f = rw (e, f)

module _ (c t : ℕ) (s : Sched) where
  choose_idle :
      prev_is_zombie (s.current_thread c) s ≡ true
      → s.idle_tid c ≡ some t
      → choose c (s.current_thread c) none s ≡ ok (switch_to c (s.current_thread c) t s)
  unfolding choose
  choose_idle e f = rw (e, f)

module _ {s : Sched} {pending : ℕ → Switch} (i : IsSound s pending) (c : ℕ)
    (q : pending c ≡ stay) where
  -- The core leaves `prev`, if there is one, for another thread.
  switch_to-IsSound :
      (prev : Option ℕ) (next : ℕ)
      → s.current_thread c ≡ prev
      → Takeable s c next
      → prev ≢ some next
      → IsSound (switch_to c prev next s).1 (put pending c (switch_to c prev next s).0)
  unfolding switch_to
  switch_to-IsSound none next e k ne =
      pending-IsSound (assign-IsSound i c next q k) c (leave next) (λ p n. cc)
  switch_to-IsSound (some prev) next e k ne = elim (Bool-cases (is_zombie (s.threads prev).state)) [
    | inl z ↦ rw z (
        pending-IsSound
          (retire-IsSound (assign-IsSound i c next q k) prev
            (ap is_zombie (state-assign s c next prev) ∙ z)
            (λ d h.
              ground (arith, current-assign s c next d, i.cur_runs d prev, i.cur_runs c prev e)))
          c (reap _ next) (λ p n. cc))
    | inr z ↦ rw z (
        save-IsSound (assign-IsSound i c next q k) c prev next
          (running-assign s c next prev (λ x. ne (ap some x)) ∙ i.cur_runs c prev e)
          (ground (arith, state-assign s c next prev, i.cur_live c prev e))
          (λ h. ground (arith, current-assign s c next c)))
  ]

  idle-not-zombie :
      (t : ℕ)
      → s.idle_tid c ≡ some t
      → s.current_thread c ≡ some t
      → prev_is_zombie (s.current_thread c) s ≡ true
      → ⊥
  idle-not-zombie t e k dead =
      let z : is_zombie (s.threads t).state ≡ true = rw k at dead in
      ground (arith, i.idle_marked c t e)

  choose-IsSound :
      (next : Option ℕ) {r : Switch × Sched}
      → ((t : ℕ) → next ≡ some t → is_ready (s.threads t) ≡ true)
      → choose c (s.current_thread c) next s ≡ ok r
      → IsSound r.1 (put pending c r.0)
  unfolding choose
  choose-IsSound (some t) ready h =
      subst (λ (r : Switch × Sched). IsSound r.1 (put pending c r.0)) (ok-injective h)
        (switch_to-IsSound (s.current_thread c) t refl (ready-Takeable i c t (ready t refl))
          (λ e. ground (arith, i.cur_runs c t e, ready t refl)))
  choose-IsSound none {r} ready h = elim (Bool-cases (prev_is_zombie (s.current_thread c) s)) [
    | inr alive ↦
        subst (λ (r : Switch × Sched). IsSound r.1 (put pending c r.0))
          (ok-injective (sym (choose_stay c s alive) ∙ h)) (pending-IsSound i c stay (λ p n. cc))
    | inl dead ↦ elim (Option-cases (s.idle_tid c)) [
      | inl e ↦ absurd (cc (choose_no_idle c s dead e))
      | inr (t, e) ↦
          subst (λ (r : Switch × Sched). IsSound r.1 (put pending c r.0))
            (ok-injective (sym (choose_idle c t s dead e) ∙ h))
            (switch_to-IsSound (s.current_thread c) t refl (idle-Takeable i c t e)
              (λ k. idle-not-zombie t e k dead))
    ]
  ]

  -- When the core has no switch pending, schedule, up to the release of the lock, keeps the
  -- invariant of the thread table on every branch, with the switch that it leaves pending.
  pub schedule-IsSound :
      {r : Switch × Sched} → schedule c s ≡ ok r → IsSound r.1 (put pending c r.0)
  unfolding schedule
  schedule-IsSound {r} h =
      elim (Bool-cases (not (prev_is_zombie (s.current_thread c) s) && leb s.active_count 1)) [
        | inl e ↦
            subst (λ (r : Switch × Sched). IsSound r.1 (put pending c r.0))
              (ok-injective (rw (e, schedule) at h)) (pending-IsSound i c stay (λ p n. cc))
        | inr e ↦
            choose-IsSound (next_ready_after (s.current_thread c) s.threads)
              (λ t k. (next_ready_after-ready (s.current_thread c) s.threads t k).0)
              (rw (e, schedule) at h)
      ]
