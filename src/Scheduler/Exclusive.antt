-- ===== src/Scheduler/Exclusive.antt =====
-- The invariant of the thread table of kernel/src/scheduler.c: which core runs or saves a thread.
use reborn_os.Prelude.{ℕ, ◌≡◌, ◌≢◌, true, false, some, put, arith}
use reborn_os.Scheduler.Defs.{
  Sched, Switch, stay, save, is_unused, is_active, is_zombie, is_ready, assign, retire,
}

-- What holds between steps. `running_on_core` names the core that runs a thread or still saves it.
pub record IsSound (s : Sched) (pending : ℕ → Switch) : Type 0 where
  pub cur_runs : (c t : ℕ) → s.current_thread c ≡ some t → (s.threads t).running_on_core ≡ some c
  pub cur_live : (c t : ℕ) → s.current_thread c ≡ some t → is_unused (s.threads t).state ≡ false
  pub saving :
      (c p n : ℕ)
      → pending c ≡ save p n
      → ((s.threads p).running_on_core ≡ some c)
        × (is_active (s.threads p).state ≡ true)
        × (s.current_thread c ≢ some p)
  pub idle_marked :
      (c t : ℕ)
      → s.idle_tid c ≡ some t
      → ((s.threads t).is_idle ≡ true) × (is_active (s.threads t).state ≡ true)
  pub idle_own :
      (c t d : ℕ) → s.idle_tid c ≡ some t → (s.threads t).running_on_core ≡ some d → d ≡ c
  pub idle_apart : (c d t : ℕ) → s.idle_tid c ≡ some t → s.idle_tid d ≡ some t → c ≡ d

-- A thread that core `c` may take: active, on no other core, and idle for no other core.
pub record Takeable (s : Sched) (c t : ℕ) : Type 0 where
  pub alone : (d : ℕ) → (s.threads t).running_on_core ≡ some d → d ≡ c
  pub is_live : is_active (s.threads t).state ≡ true
  pub own : (d : ℕ) → s.idle_tid d ≡ some t → d ≡ c

module _ {s : Sched} {pending : ℕ → Switch} (i : IsSound s pending) where
  pub ready-Takeable : (c t : ℕ) → is_ready (s.threads t) ≡ true → Takeable s c t
  ready-Takeable c t r = record {
    alone = λ d h. ground arith;
    is_live = ground arith;
    own = λ d h. ground (arith, i.idle_marked d t h);
  }

  pub idle-Takeable : (c t : ℕ) → s.idle_tid c ≡ some t → Takeable s c t
  idle-Takeable c t h = record {
    alone = λ d r. i.idle_own c t d h r;
    is_live = (i.idle_marked c t h).1;
    own = λ d k. i.idle_apart d c t k h;
  }

  pub assign-IsSound :
      (c t : ℕ) → pending c ≡ stay → Takeable s c t → IsSound (assign c t s) pending
  unfolding assign
  assign-IsSound c t q k = record {
    cur_runs = λ d u h. ground (arith, i.cur_runs d u, k.alone d);
    cur_live = λ d u h. ground (arith, i.cur_live d u, k.is_live);
    saving = λ d p n h. ground (arith, i.saving d p n h, k.alone d);
    idle_marked = λ d u h. ground (arith, i.idle_marked d u);
    idle_own = λ d u e h r. ground (arith, i.idle_own d u e, k.own d);
    idle_apart = λ d e u h r. i.idle_apart d e u h r;
  }

  pub retire-IsSound :
      (p : ℕ)
      → is_zombie (s.threads p).state ≡ true
      → ((c : ℕ) → s.current_thread c ≢ some p)
      → IsSound (retire p s) pending
  unfolding retire
  retire-IsSound p z nobody = record {
    cur_runs = λ d u h. ground (arith, i.cur_runs d u, nobody d);
    cur_live = λ d u h. ground (arith, i.cur_live d u, nobody d);
    saving = λ d q n h. ground (arith, i.saving d q n);
    idle_marked = λ d u h. ground (arith, i.idle_marked d u);
    idle_own = λ d u e h r. ground (arith, i.idle_own d u e);
    idle_apart = λ d e u h r. i.idle_apart d e u h r;
  }

  -- A switch that saves nothing adds no condition.
  pub pending-IsSound :
      (c : ℕ) (w : Switch) → ((p n : ℕ) → w ≢ save p n) → IsSound s (put pending c w)
  pending-IsSound c w other = record {
    cur_runs = i.cur_runs;
    cur_live = i.cur_live;
    saving = λ d p n h. ground (arith, i.saving d p n, other p n);
    idle_marked = i.idle_marked;
    idle_own = i.idle_own;
    idle_apart = i.idle_apart;
  }

  pub save-IsSound :
      (c p n : ℕ)
      → (s.threads p).running_on_core ≡ some c
      → is_active (s.threads p).state ≡ true
      → s.current_thread c ≢ some p
      → IsSound s (put pending c (save p n))
  save-IsSound c p n r a ne = record {
    cur_runs = i.cur_runs;
    cur_live = i.cur_live;
    saving = λ d q k h. ground (arith, i.saving d q k);
    idle_marked = i.idle_marked;
    idle_own = i.idle_own;
    idle_apart = i.idle_apart;
  }
