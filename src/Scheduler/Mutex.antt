-- ===== src/Scheduler/Mutex.antt =====
-- Each step of the cores of kernel/src/scheduler.c against `IsSound`, and the runs from boot.
use reborn_os.Prelude.{
  ℕ, ◌<◌, ◌≡◌, ◌≢◌, refl, sym, ap, subst, true, false, Option, none, some, ◌==◌, put, arith,
  Bool-cases, Option-cases, inl, inr, ok, ok-injective, ◌>>=◌, >>=-eq-ok,
}
use reborn_os.Heap.{Heap, kmalloc}
use reborn_os.Scheduler.Defs.{
  Sched, Request, Switch, stay, leave, reap, save, is_unused, is_active, is_ready, assign, install,
  mark_idle, new_thread, finish_switch, exit_thread, scheduler_init, stack_size, max_threads,
  free_slot, stack_for, thread_create_ex, create_idle_thread, first_for, scheduler_start,
  thread_exit_code, thread_set_heap_brk, current_for, idle_for, next_ready_after,
}
use reborn_os.Scheduler.Ready.{next_ready_after-ready, free_slot-unused}
use reborn_os.Scheduler.Machine.{
  Machine, Step, create, create_idle, call, start, finish, exit, set_brk, Reach, here, next, booted,
}
use reborn_os.Scheduler.Exclusive.{
  IsSound, Takeable, ready-Takeable, idle-Takeable, assign-IsSound, pending-IsSound,
}
use reborn_os.Scheduler.Steps.{schedule-IsSound}

-- What a successful thread_create_ex has done.
pub record Created (trampoline : ℕ) (s : Sched) (r : Request) (tid : ℕ) (t : Sched) : Type 0 where
  pub stack : ℕ
  pub heap_after : Heap
  pub was_unused : is_unused (s.threads tid).state ≡ true
  pub in_table : tid < max_threads
  pub kmalloc_ok : (kmalloc s.heap stack_size ≡ some (stack, heap_after)) × (stack ≢ 0)
  pub is_installed : t ≡ install trampoline s r tid stack heap_after

with_stack :
    (trampoline : ℕ) (s : Sched) (r : Request) (tid : ℕ) (k : Option (ℕ × Heap)) {q : ℕ × Sched}
    → kmalloc s.heap stack_size ≡ k
    → free_slot max_threads 0 s.threads ≡ some tid
    → (stack_for k >>= λ (stack, h). ok (tid, install trampoline s r tid stack h)) ≡ ok q
    → Created trampoline s r q.0 q.1
with_stack trampoline s r tid none k f h = cc
with_stack trampoline s r tid (some (p, g)) {q} k f h = elim (Bool-cases (p == 0)) [
  | inl e ↦ absurd (cc (rw e at h))
  | inr e ↦
      (let same : ◌≡◌ {A = ℕ × Sched} (tid, install trampoline s r tid p g) q =
          ok-injective (rw e at h) in
        subst (λ (q : ℕ × Sched). Created trampoline s r q.0 q.1) same
          (record {
            stack = p;
            heap_after = g;
            was_unused = (free_slot-unused tid s.threads f).0;
            in_table = (free_slot-unused tid s.threads f).1;
            kmalloc_ok = (k, ground arith);
            is_installed = refl;
          }))
]

pub thread_create_ex-Created :
    (trampoline : ℕ) (s : Sched) (r : Request) {tid : ℕ} {t : Sched}
    → thread_create_ex trampoline s r ≡ ok (tid, t)
    → Created trampoline s r tid t
unfolding thread_create_ex
thread_create_ex-Created trampoline s r h =
    elim (Option-cases (free_slot max_threads 0 s.threads)) [
      | inl e ↦ absurd (cc (rw (e, thread_create_ex) at h))
      | inr (id, e) ↦
          with_stack trampoline s r id (kmalloc s.heap stack_size) refl e
            (rw (e, thread_create_ex) at h)
    ]

module _ {s : Sched} {pending : ℕ → Switch} (i : IsSound s pending) where
  install-IsSound :
      (trampoline : ℕ) (r : Request) (id stack : ℕ) (h : Heap)
      → is_unused (s.threads id).state ≡ true
      → IsSound (install trampoline s r id stack h) pending
  unfolding install new_thread
  install-IsSound trampoline r id stack h u = record {
    cur_runs = λ c t e. ground (arith, i.cur_runs c t, i.cur_live c t);
    cur_live = λ c t e. ground (arith, i.cur_live c t);
    saving = λ c p n e. ground (arith, i.saving c p n);
    idle_marked = λ c t e. ground (arith, i.idle_marked c t);
    idle_own = λ c t d e k. ground (arith, i.idle_own c t d, i.idle_marked c t);
    idle_apart = λ c d t e k. i.idle_apart c d t e k;
  }

  mark_idle-IsSound :
      (c id : ℕ)
      → s.idle_tid c ≡ none
      → is_active (s.threads id).state ≡ true
      → (s.threads id).running_on_core ≡ none
      → (s.threads id).is_idle ≡ false
      → IsSound (mark_idle c id s) pending
  unfolding mark_idle
  mark_idle-IsSound c id e a r f = record {
    cur_runs = λ d t h. ground (arith, i.cur_runs d t);
    cur_live = λ d t h. ground (arith, i.cur_live d t);
    saving = λ d p n h. ground (arith, i.saving d p n);
    idle_marked = λ d t h. ground (arith, i.idle_marked d t);
    idle_own = λ d t x h k. ground (arith, i.idle_own d t x, i.idle_marked d t);
    idle_apart =
        λ d x t h k. ground (arith, i.idle_apart d x t, i.idle_marked d t, i.idle_marked x t);
  }

  save_done-IsSound :
      (c p n rsp : ℕ)
      → pending c ≡ save p n
      → IsSound (finish_switch rsp (save p n) s) (put pending c stay)
  unfolding finish_switch
  save_done-IsSound c p n rsp e = record {
    cur_runs = λ d t h. ground (arith, i.cur_runs d t, i.saving c p n e);
    cur_live = λ d t h. ground (arith, i.cur_live d t);
    saving = λ d q k h. ground (arith, i.saving d q k, i.saving c p n e);
    idle_marked = λ d t h. ground (arith, i.idle_marked d t);
    idle_own = λ d t x h k. ground (arith, i.idle_own d t x);
    idle_apart = λ d x t h k. i.idle_apart d x t h k;
  }

  exit_thread-IsSound :
      (c t code : ℕ)
      → pending c ≡ stay
      → s.current_thread c ≡ some t
      → (s.threads t).is_idle ≡ false
      → IsSound (exit_thread t code s) pending
  unfolding exit_thread
  exit_thread-IsSound c t code q e f = record {
    cur_runs = λ d u h. ground (arith, i.cur_runs d u);
    cur_live = λ d u h. ground (arith, i.cur_live d u);
    saving = λ d p n h. ground (arith, i.saving d p n h, i.cur_runs c t e);
    idle_marked = λ d u h. ground (arith, i.idle_marked d u);
    idle_own = λ d u x h k. ground (arith, i.idle_own d u x);
    idle_apart = λ d x u h k. i.idle_apart d x u h k;
  }

  brk-IsSound :
      (t brk : ℕ)
      → IsSound
          (record s { threads = put s.threads t (record (s.threads t) { heap_brk = brk }) })
          pending
  brk-IsSound t brk = record {
    cur_runs = λ d u h. ground (arith, i.cur_runs d u);
    cur_live = λ d u h. ground (arith, i.cur_live d u);
    saving = λ d p n h. ground (arith, i.saving d p n h);
    idle_marked = λ d u h. ground (arith, i.idle_marked d u);
    idle_own = λ d u x h k. ground (arith, i.idle_own d u x);
    idle_apart = λ d x u h k. i.idle_apart d x u h k;
  }

-- The switch that a core still has to make.
finish-IsSound :
    {s : Sched} {pending : ℕ → Switch} (c rsp : ℕ) (w : Switch)
    → pending c ≡ w
    → IsSound s pending
    → IsSound (finish_switch rsp w s) (put pending c stay)
unfolding finish_switch
finish-IsSound c rsp stay e i = pending-IsSound i c stay (λ p n. cc)
finish-IsSound c rsp (leave n) e i = pending-IsSound i c stay (λ p n. cc)
finish-IsSound {s} c rsp (reap stack n) e i =
    let j = pending-IsSound i c stay (λ p n. cc) in
    record {
      cur_runs = j.cur_runs;
      cur_live = j.cur_live;
      saving = j.saving;
      idle_marked = j.idle_marked;
      idle_own = j.idle_own;
      idle_apart = j.idle_apart;
    }
finish-IsSound c rsp (save p n) e i = save_done-IsSound i c p n rsp e

module _ {s : Sched} {pending : ℕ → Switch} (i : IsSound s pending) where
  Created-IsSound :
      (trampoline : ℕ) (r : Request) (tid : ℕ) (t : Sched)
      → Created trampoline s r tid t
      → IsSound t pending
  Created-IsSound trampoline r tid t c =
      subst (λ x. IsSound x pending) (sym c.is_installed)
        (install-IsSound i trampoline r tid c.stack c.heap_after c.was_unused)

  idle-Created-IsSound :
      (trampoline core : ℕ) (r : Request) (tid : ℕ) (t : Sched)
      → s.idle_tid core ≡ none
      → Created trampoline s r tid t
      → IsSound (mark_idle core tid t) pending
  unfolding install new_thread
  idle-Created-IsSound trampoline core r tid t f c =
      mark_idle-IsSound (Created-IsSound trampoline r tid t c) core tid (rw c.is_installed f)
        (rw c.is_installed (ground arith)) (rw c.is_installed (ground arith))
        (rw c.is_installed (ground arith))

  first-Takeable :
      (c first : ℕ) (o : Option ℕ)
      → next_ready_after none s.threads ≡ o
      → first_for c o s ≡ ok first
      → Takeable s c first
  first-Takeable c first none e h = idle-Takeable i c first (own (s.idle_tid c) h)
    where
      own : (o : Option ℕ) → idle_for o ≡ ok first → o ≡ some first
      own none k = cc
      own (some t) k = ap some (ok-injective k)
  first-Takeable c first (some t) e h = ready-Takeable i c first (
      subst (λ k. is_ready (s.threads k) ≡ true) (ok-injective h)
        (next_ready_after-ready none s.threads t e).0)

  start-IsSound :
      (c : ℕ) {first : ℕ} {t : Sched}
      → pending c ≡ stay
      → scheduler_start c s ≡ ok (first, t)
      → IsSound t (put pending c (leave first))
  unfolding scheduler_start
  start-IsSound c {first} {t} q h = elim (Bool-cases (s.active_count == 0)) [
    | inl e ↦ absurd (cc (rw (e, scheduler_start) at h))
    | inr e ↦
        (let (f, k, l) =
            >>=-eq-ok (first_for c (next_ready_after none s.threads) s)
              (λ first. ok (first, assign c first s)) (rw (e, scheduler_start) at h) in
          let same : ◌≡◌ {A = ℕ × Sched} (f, assign c f s) (first, t) = ok-injective l in
          subst (λ (r : ℕ × Sched). IsSound r.1 (put pending c (leave r.0))) same
            (pending-IsSound (assign-IsSound i c f q (first-Takeable c f _ refl k)) c (leave f)
              (λ p n. cc)))
  ]

-- Each step of any core keeps the invariant of the thread table: a core's thread is marked as
-- running on it and in use, a thread being saved is active and run by nobody, an idle thread
-- belongs to one core.
pub Step-IsSound :
    {trampoline : ℕ} {m u : Machine}
    → Step trampoline m u
    → IsSound m.sched m.pending
    → IsSound u.sched u.pending
unfolding create_idle_thread thread_exit_code thread_set_heap_brk
Step-IsSound {trampoline} {m} (create {tid} {s} r e) i =
    Created-IsSound i trampoline r tid s (thread_create_ex-Created trampoline m.sched r e)
Step-IsSound {trampoline} {m} (create_idle {s} core r f e) i =
    let (q, a, b) =
      >>=-eq-ok (thread_create_ex trampoline m.sched r) (λ (tid, t). ok (mark_idle core tid t)) e in
    subst (λ x. IsSound x m.pending) (ok-injective b)
      (idle-Created-IsSound i trampoline core r q.0 q.1 f
        (thread_create_ex-Created trampoline m.sched r a))
Step-IsSound (call core q e) i = schedule-IsSound i core q e
Step-IsSound (start core q f e) i = start-IsSound i core q e
Step-IsSound {m} (finish core rsp) i = finish-IsSound core rsp (m.pending core) refl i
Step-IsSound {m} (exit core code tid q e f a h) i =
    let (t, x, y) =
      >>=-eq-ok (current_for (m.sched.current_thread core)) (λ t. ok (exit_thread t code m.sched))
        h in
    let same : tid ≡ t = ok-injective (rw e at x) in
    subst (λ z. IsSound z m.pending) (ok-injective y)
      (subst (λ k. IsSound (exit_thread k code m.sched) m.pending) same
        (exit_thread-IsSound i core tid code q e f))
Step-IsSound {m} (set_brk core brk h) i =
    let (t, x, y) =
      >>=-eq-ok (current_for (m.sched.current_thread core))
        (λ t. ok (record m.sched {
          threads = put m.sched.threads t (record (m.sched.threads t) { heap_brk = brk });
        }))
        h in
    subst (λ z. IsSound z m.pending) (ok-injective y) (brk-IsSound i t brk)

booted-IsSound : (s : Sched) → IsSound (booted s).sched (booted s).pending
unfolding scheduler_init
booted-IsSound s = record {
  cur_runs = λ c t h. cc;
  cur_live = λ c t h. cc;
  saving = λ c p n h. cc;
  idle_marked = λ c t h. cc;
  idle_own = λ c t d h k. cc;
  idle_apart = λ c d t h k. cc;
}

pub Reach-IsSound :
    {trampoline : ℕ} (s : Sched) {m : Machine}
    → Reach trampoline (booted s) m
    → IsSound m.sched m.pending
Reach-IsSound s here = booted-IsSound s
Reach-IsSound s (next r st) = Step-IsSound st (Reach-IsSound s r)

-- From boot, over any interleaving of the cores' calls, two cores never run the same thread, and
-- while a core still saves a thread's context no core runs that thread.
pub no_double_run :
    {trampoline : ℕ} (s : Sched) {m : Machine}
    → Reach trampoline (booted s) m
    → (c d t : ℕ) → m.sched.current_thread d ≡ some t
    → (m.sched.current_thread c ≡ some t → c ≡ d) × ((n : ℕ) → m.pending c ≢ save t n)
no_double_run s {m} r c d t e =
    let i = Reach-IsSound s r in
    (
      (λ f. ground (arith, i.cur_runs c t f, i.cur_runs d t e)),
      λ n h. ground (arith, i.saving c t n h, i.cur_runs d t e),
    )
