-- ===== src/Spinlock/Exclusion.antt =====
-- Who holds the lock of kernel/src/spinlock.c.
use reborn_os.Prelude.{
  ℕ, ◌≡◌, refl, sym, ap, ◌∙◌, ◌⊎◌, inl, inr, Bool, true, false, Option, none, some, ◌==◌, put,
  is_none, arith, Bool-cases, ==_self, Option-cases,
}
use reborn_os.Spinlock.Defs.{
  Place, outside, claims, spins, holds, is_holds, Lock, access, step, Reach, start, later,
}

abbrev owns : Option ℕ → ℕ → Bool
owns none core = false
owns (some h) core = core == h

-- The word is 0 exactly if no core has the lock, and at most one core has it.
record Owned (l : Lock) : Type 0 where
  owner : Option ℕ
  word : (l.locked == 0) ≡ is_none owner
  holder : (core : ℕ) → is_holds (l.place core) ≡ owns owner core

-- The owner after an access of `core`.
abbrev next_owner : Place → ℕ → Option ℕ → Option ℕ
next_owner outside core owner = owner
next_owner claims core none = some core
next_owner claims core (some h) = some h
next_owner spins core owner = owner
next_owner holds core owner = none

step-word :
    (p : Place) (core locked : ℕ) (owner : Option ℕ)
    → (locked == 0) ≡ is_none owner
    → ((access locked p).0 == 0) ≡ is_none (next_owner p core owner)
unfolding access
step-word outside core locked owner h = h
step-word claims core locked none h = refl
step-word claims core locked (some k) h = refl
step-word spins core locked owner h = h
step-word holds core locked owner h = refl

-- Where `c` stands after an access of `core`, for the core itself and for another one.
moved :
    (c core : ℕ) (place : ℕ → Place) (p : Place) (owner : Option ℕ)
    → is_holds p ≡ owns owner core
    → is_holds (place c) ≡ owns owner c
    → is_holds (put place core p c) ≡ owns owner c
moved c core place p owner here there = elim (Bool-cases (c == core)) [
  | inl e ↦ (let same : c ≡ core = ground arith in rw e (here ∙ ap (owns owner) (sym same)))
  | inr e ↦ rw e there
]

step-holder :
    (p : Place) (core locked : ℕ) (owner : Option ℕ) (place : ℕ → Place)
    → is_holds p ≡ owns owner core
    → (locked == 0) ≡ is_none owner
    → ((c : ℕ) → is_holds (place c) ≡ owns owner c)
    → (c : ℕ) → is_holds (put place core (access locked p).1 c) ≡ owns (next_owner p core owner) c
unfolding access
step-holder outside core locked owner place own word holder c =
    moved c core place claims owner own (holder c)
step-holder claims core locked none place own word holder c = rw word (ground (arith, holder c))
step-holder claims core locked (some k) place own word holder c =
    rw word (moved c core place spins (some k) own (holder c))
step-holder spins core locked none place own word holder c =
    rw word (moved c core place claims none own (holder c))
step-holder spins core locked (some k) place own word holder c =
    rw word (moved c core place spins (some k) own (holder c))
step-holder holds core locked none place own word holder c = cc
step-holder holds core locked (some k) place own word holder c = ground (arith, holder c, own)

step-Owned : (core : ℕ) (l : Lock) → Owned l → Owned (step core l)
unfolding step
step-Owned core l o = record {
  owner = next_owner (l.place core) core o.owner;
  word = step-word (l.place core) core l.locked o.owner o.word;
  holder = step-holder (l.place core) core l.locked o.owner l.place (o.holder core) o.word o.holder;
}

Reach-Owned : {l : Lock} → Reach l → Owned l
Reach-Owned start = record { owner = none; word = refl; holder = λ core. refl }
Reach-Owned (later {l} core r) = step-Owned core l (Reach-Owned r)

one_owner : (owner : Option ℕ) (i j : ℕ) → owns owner i ≡ true → owns owner j ≡ true → i ≡ j
one_owner none i j p q = cc
one_owner (some h) i j p q = ground arith

-- Over any interleaving of the accesses of any number of cores, two cores are never between
-- spinlock_acquire and spinlock_release together.
pub mutual_exclusion :
    {l : Lock} → Reach l → (i j : ℕ) → l.place i ≡ holds → l.place j ≡ holds → i ≡ j
mutual_exclusion r i j at_i at_j =
    let o = Reach-Owned r in
    one_owner o.owner i j (sym (o.holder i) ∙ ap is_holds at_i)
      (sym (o.holder j) ∙ ap is_holds at_j)

at_put : (place : ℕ → Place) (core : ℕ) (p : Place) → put place core p core ≡ p
at_put place core p = rw (==_self core) refl

-- A core that waits for a free lock has it after at most two accesses of its own.
abbrev Waits : Place → Type 0
Waits p = (p ≡ claims) ⊎ (p ≡ spins)

takes :
    (core : ℕ) (l : Lock)
    → (l.locked == 0) ≡ true
    → Waits (l.place core)
    → ((step core l).place core ≡ holds) ⊎ ((step core (step core l)).place core ≡ holds)
unfolding step access
takes core l free (inl e) = inl (rw (e, free, ==_self core) refl)
takes core l free (inr e) = inr (rw (e, free, ==_self core) (rw free refl))

-- In every state that is reached, a core that waits for the lock sees a core holding it, or has it
-- after at most two accesses of its own.
pub no_deadlock :
    {l : Lock}
    → Reach l
    → (core : ℕ) → (l.place core ≡ claims) ⊎ (l.place core ≡ spins)
    → ((holder : ℕ) × (l.place holder ≡ holds))
      ⊎ (((step core l).place core ≡ holds) ⊎ ((step core (step core l)).place core ≡ holds))
no_deadlock {l} r core w = owned_or_free (Reach-Owned r)
  where
    held : (p : Place) → is_holds p ≡ true → p ≡ holds
    held outside h = cc
    held claims h = cc
    held spins h = cc
    held holds h = refl

    owned_or_free :
        Owned l
        → ((holder : ℕ) × (l.place holder ≡ holds))
          ⊎ (((step core l).place core ≡ holds) ⊎ ((step core (step core l)).place core ≡ holds))
    owned_or_free o = elim (Option-cases o.owner) [
      | inl e ↦ inr (takes core l (rw e at o.word) w)
      | inr (h, e) ↦ inl (h, held (l.place h) (o.holder h ∙ ap (λ k. owns k h) e ∙ ==_self h))
    ]
