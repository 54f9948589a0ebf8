-- ===== src/Scheduler/Exit.antt =====
-- The life of a thread in kernel/src/scheduler.c, from one step of the cores to the next.
use reborn_os.Prelude.{
  ℕ, ◌≡◌, ◌≢◌, sym, ap, ◌∙◌, ◌⊎◌, ◌>>=◌, subst, true, false, ◌&&◌, not, Option, none, some, leb,
  ◌==◌, put, arith, Bool-cases, inl, inr, ok, ok-injective, >>=-eq-ok,
}
use reborn_os.Scheduler.Defs.{
  Sched, Switch, stay, leave, reap, save, Request, is_zombie, is_active, is_unused, assign, retire,
  switch_to, choose, schedule, prev_is_zombie, next_ready_after, finish_switch, exit_thread,
  thread_exit_code, install, mark_idle, current_for, idle_for, create_idle_thread, scheduler_start,
  first_for, thread_set_heap_brk, thread_create_ex, thread_is_alive,
}
use reborn_os.Heap.{Heap}
use reborn_os.Scheduler.Mutex.{Created, thread_create_ex-Created}
use reborn_os.Scheduler.Machine.{
  Machine, Step, create, create_idle, call, start, finish, exit, set_brk,
}

-- A thread of the table that has not ended, with its exit pointer.
pub record Lives (tid out : ℕ) (s : Sched) : Type 0 where
  pub active : is_active (s.threads tid).state ≡ true
  pub pointer : (s.threads tid).exit_code_out ≡ out

module _ (tid out : ℕ) where
  assign-Lives : (c t : ℕ) (s : Sched) → Lives tid out s → Lives tid out (assign c t s)
  unfolding assign
  assign-Lives c t s l = record {
    active = ground (arith, l.active);
    pointer = ground (arith, l.pointer);
  }

  retire-Lives : (p : ℕ) (s : Sched) → p ≢ tid → Lives tid out s → Lives tid out (retire p s)
  unfolding retire
  retire-Lives p s ne l = record {
    active = ground (arith, l.active);
    pointer = ground (arith, l.pointer);
  }

  exit-Lives :
      (t code : ℕ) (s : Sched) → t ≢ tid → Lives tid out s → Lives tid out (exit_thread t code s)
  unfolding exit_thread
  exit-Lives t code s ne l = record {
    active = ground (arith, l.active);
    pointer = ground (arith, l.pointer);
  }

  finish-Lives :
      (rsp : ℕ) (w : Switch) (s : Sched) → Lives tid out s → Lives tid out (finish_switch rsp w s)
  unfolding finish_switch
  finish-Lives rsp stay s l = l
  finish-Lives rsp (leave n) s l = l
  finish-Lives rsp (reap k n) s l = record { active = l.active; pointer = l.pointer }
  finish-Lives rsp (save p n) s l = record {
    active = ground (arith, l.active);
    pointer = ground (arith, l.pointer);
  }

  switch_to-Lives :
      (c : ℕ) (prev : Option ℕ) (t : ℕ) (s : Sched)
      → Lives tid out s
      → Lives tid out (switch_to c prev t s).1
  unfolding switch_to
  switch_to-Lives c none t s l = assign-Lives c t s l
  switch_to-Lives c (some prev) t s l = elim (Bool-cases (is_zombie (s.threads prev).state)) [
    | inl z ↦
        rw z
          (retire-Lives prev (assign c t s) (λ e. ground (arith, l.active)) (assign-Lives c t s l))
    | inr z ↦ rw z (assign-Lives c t s l)
  ]

-- schedule leaves everything as it is, or switches to some thread.
Switched : ℕ → Sched → Switch × Sched → Type 0
Switched c s r = (r ≡ (stay, s)) ⊎ ((t : ℕ) × (r ≡ switch_to c (s.current_thread c) t s))

idle_for-Switched :
    (c : ℕ) (s : Sched) (idle : Option ℕ) {r : Switch × Sched}
    → (idle_for idle >>= λ tid. ok (switch_to c (s.current_thread c) tid s)) ≡ ok r
    → Switched c s r
unfolding Switched
idle_for-Switched c s none h = cc
idle_for-Switched c s (some t) h = inr (t, sym (ok-injective h))

choose-Switched :
    (c : ℕ) (s : Sched) (next : Option ℕ) {r : Switch × Sched}
    → choose c (s.current_thread c) next s ≡ ok r
    → Switched c s r
unfolding choose Switched
choose-Switched c s (some t) h = inr (t, sym (ok-injective h))
choose-Switched c s none h = elim (Bool-cases (prev_is_zombie (s.current_thread c) s)) [
  | inr alive ↦ inl (sym (ok-injective (rw (alive, choose) at h)))
  | inl dead ↦ idle_for-Switched c s (s.idle_tid c) (rw (dead, choose) at h)
]

schedule-Switched : (c : ℕ) (s : Sched) {r : Switch × Sched} → schedule c s ≡ ok r → Switched c s r
unfolding schedule Switched
schedule-Switched c s h =
    elim (Bool-cases (not (prev_is_zombie (s.current_thread c) s) && leb s.active_count 1)) [
      | inl e ↦ inl (sym (ok-injective (rw (e, schedule) at h)))
      | inr e ↦
          choose-Switched c s (next_ready_after (s.current_thread c) s.threads)
            (rw (e, schedule) at h)
    ]

module _ (tid out : ℕ) where
  schedule-Lives :
      (c : ℕ) (s : Sched) {r : Switch × Sched}
      → schedule c s ≡ ok r
      → Lives tid out s
      → Lives tid out r.1
  unfolding Switched
  schedule-Lives c s h l = elim (schedule-Switched c s h) [
    | inl e ↦ subst (λ (r : Switch × Sched). Lives tid out r.1) (sym e) l
    | inr (t, e) ↦
        subst (λ (r : Switch × Sched). Lives tid out r.1) (sym e)
          (switch_to-Lives tid out c (s.current_thread c) t s l)
  ]

  install-Lives :
      (trampoline : ℕ) (s : Sched) (r : Request) (id stack : ℕ) (h : Heap)
      → is_unused (s.threads id).state ≡ true
      → Lives tid out s
      → Lives tid out (install trampoline s r id stack h)
  unfolding install
  install-Lives trampoline s r id stack h free l = record {
    active = ground (arith, l.active);
    pointer = ground (arith, l.active, l.pointer);
  }

  Created-Lives :
      {trampoline : ℕ} {s : Sched} {r : Request} {id : ℕ} {t : Sched}
      → Created trampoline s r id t
      → Lives tid out s
      → Lives tid out t
  Created-Lives {trampoline} {s} {r} {id} c l =
      subst (Lives tid out) (sym c.is_installed)
        (install-Lives trampoline s r id c.stack c.heap_after c.was_unused l)

  mark_idle-Lives :
      (core id : ℕ) (s : Sched) → Lives tid out s → Lives tid out (mark_idle core id s)
  unfolding mark_idle
  mark_idle-Lives core id s l = record {
    active = ground (arith, l.active);
    pointer = ground (arith, l.pointer);
  }

  brk-Lives :
      (id brk : ℕ) (s : Sched)
      → Lives tid out s
      → Lives tid out
          (record s { threads = put s.threads id (record (s.threads id) { heap_brk = brk }) })
  brk-Lives id brk s l = record {
    active = ground (arith, l.active);
    pointer = ground (arith, l.pointer);
  }

start-Lives :
    (tid out core : ℕ) (s : Sched) {r : ℕ × Sched}
    → scheduler_start core s ≡ ok r
    → Lives tid out s
    → Lives tid out r.1
unfolding scheduler_start
start-Lives tid out core s h l = elim (Bool-cases (s.active_count == 0)) [
  | inl e ↦ absurd (cc (rw e at h))
  | inr e ↦
      (let (t, x, y) =
          >>=-eq-ok (first_for core (next_ready_after none s.threads) s)
            (λ t. ok (t, assign core t s)) (rw e at h) in
        subst (λ (r : ℕ × Sched). Lives tid out r.1) (ok-injective y)
          (assign-Lives tid out core t s l))
]

-- What a step of any core does to a thread that has not ended.
pub data After (tid out : ℕ) (m u : Machine) : Type 0 where
  lives : Lives tid out u.sched → After tid out m u
  exited :
      (core code : ℕ)
      → m.sched.current_thread core ≡ some tid
      → thread_exit_code core code m.sched ≡ ok u.sched
      → thread_is_alive tid u.sched ≡ false
      → u.sched.memory out ≡ code
      → After tid out m u

exit_thread_delivers :
    (tid out code : ℕ) (s : Sched)
    → out ≢ 0
    → Lives tid out s
    → (thread_is_alive tid (exit_thread tid code s) ≡ false)
      × ((exit_thread tid code s).memory out ≡ code)
unfolding thread_is_alive exit_thread
exit_thread_delivers tid out code s ne l = (ground arith, ground (arith, l.pointer))

-- As long as no thread ends it, a thread that has not ended keeps its slot and its exit pointer over
-- every step of any core; the step that ends it is its own call of thread_exit_code, on the core that
-- runs it, and that step writes the code to where the pointer, which is not NULL, points.
pub Step-After :
    {trampoline : ℕ} {m u : Machine} (tid out : ℕ)
    → out ≢ 0
    → Step trampoline m u
    → Lives tid out m.sched
    → After tid out m u
unfolding create_idle_thread thread_exit_code thread_set_heap_brk
Step-After {trampoline} {m} tid out ne (create {s} r e) l =
    lives (Created-Lives tid out (thread_create_ex-Created trampoline m.sched r e) l)
Step-After {trampoline} {m} tid out ne (create_idle {s} core r f e) l =
    let (q, a, b) =
      >>=-eq-ok (thread_create_ex trampoline m.sched r) (λ (id, t). ok (mark_idle core id t)) e in
    lives (
      subst (Lives tid out) (ok-injective b) (
        mark_idle-Lives tid out core q.0 q.1
          (Created-Lives tid out (thread_create_ex-Created trampoline m.sched r a) l)))
Step-After {m} tid out ne (call core q e) l = lives (schedule-Lives tid out core m.sched e l)
Step-After {m} tid out ne (start core q f e) l = lives (start-Lives tid out core m.sched e l)
Step-After {m} tid out ne (finish core rsp) l =
    lives (finish-Lives tid out rsp (m.pending core) m.sched l)
Step-After {m} tid out ne (exit {s} core code t q e f a h) l =
    let (t', x, y) =
      >>=-eq-ok (current_for (m.sched.current_thread core)) (λ t. ok (exit_thread t code m.sched))
        h in
    let same : t ≡ t' = ok-injective (rw e at x) in
    let after : exit_thread t code m.sched ≡ s =
      ap (λ k. exit_thread k code m.sched) same ∙ ok-injective y in
    elim (Bool-cases (t == tid)) [
      | inl z ↦
          (let mine : t ≡ tid = ground arith in
            let there : exit_thread tid code m.sched ≡ s =
              ap (λ k. exit_thread k code m.sched) (sym mine) ∙ after in
            let (gone, written) = exit_thread_delivers tid out code m.sched ne l in
            exited core code (e ∙ ap some mine) h (ap (thread_is_alive tid) (sym there) ∙ gone)
              (ap (λ (v : Sched). v.memory out) (sym there) ∙ written))
      | inr z ↦
          lives (subst (Lives tid out) after (exit-Lives tid out t code m.sched (ground arith) l))
    ]
Step-After {m} tid out ne (set_brk core brk h) l =
    let (t, x, y) =
      >>=-eq-ok (current_for (m.sched.current_thread core))
        (λ t. ok (record m.sched {
          threads = put m.sched.threads t (record (m.sched.threads t) { heap_brk = brk });
        }))
        h in
    lives (subst (Lives tid out) (ok-injective y) (brk-Lives tid out t brk m.sched l))
