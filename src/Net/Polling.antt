-- ===== src/Net/Polling.antt =====
-- The loops of kernel/src/net.c that wait for an answer.
use reborn_os.Prelude.{
  ℕ, zero, suc, ◌<◌, ◌≡◌, refl, subst, Option, none, some, List, Option-cases, inl, inr, arith,
}
use reborn_os.Net.Defs.{spin_loop, retry_loop, spins_per_retry}

module _ {D : Type 0} (send : List ℕ → D → D) (poll : D → List ℕ × D) (schedule : D → D) where
  -- The state before poll number `k`, if no frame before it was the answer.
  abbrev waited : ℕ → D → D
  waited zero d = d
  waited (suc k) d = waited k (schedule (poll d).1)

  -- What the polls from a state on find: the first frame that is an answer, or none of `n`.
  pub data Spun {R : Type 0} (Answers : List ℕ → R → Type 0) (Other : List ℕ → Type 0) (n : ℕ)
      (d : D) : Option R → D → Type 0 where
    answered :
        (k : ℕ) (r : R)
        → k < n
        → ((j : ℕ) → j < k → Other (poll (waited j d)).0)
        → Answers (poll (waited k d)).0 r
        → Spun Answers Other n d (some r) (poll (waited k d)).1
    silent :
        ((j : ℕ) → j < n → Other (poll (waited j d)).0) → Spun Answers Other n d none (waited n d)

  -- The answers and the other frames that a test tells apart.
  abbrev Accepted : {R : Type 0} → (List ℕ → Option R) → List ℕ → R → Type 0
  Accepted accept frame r = accept frame ≡ some r

  abbrev Refused : {R : Type 0} → (List ℕ → Option R) → List ℕ → Type 0
  Refused accept frame = accept frame ≡ none

  earlier :
      {R : Type 0} (accept : List ℕ → Option R) (d : D) (n : ℕ)
      → accept (poll d).0 ≡ none
      → ((j : ℕ) → j < n → accept (poll (waited j (schedule (poll d).1))).0 ≡ none)
      → (j : ℕ) → j < suc n
      → accept (poll (waited j d)).0 ≡ none
  earlier accept d n e h zero l = e
  earlier accept d n e h (suc j) l = h j (omega arith)

  Spun-later :
      {R : Type 0} {accept : List ℕ → Option R} {n : ℕ} {d : D} {o : Option R} {d' : D}
      → accept (poll d).0 ≡ none
      → Spun (Accepted accept) (Refused accept) n (schedule (poll d).1) o d'
      → Spun (Accepted accept) (Refused accept) (suc n) d o d'
  Spun-later {accept = accept} {d = d} e (answered k r l h a) =
      answered (suc k) r (omega arith) (earlier accept d k e h) a
  Spun-later {accept = accept} {n} {d} e (silent h) = silent (earlier accept d n e h)

  spin_loop-Spun :
      {R : Type 0} (n : ℕ) (accept : List ℕ → Option R) (d : D)
      → let (o, d') = spin_loop send poll schedule n accept d in
        Spun (Accepted accept) (Refused accept) n d o d'
  unfolding spin_loop
  spin_loop-Spun zero accept d = silent λ j l. absurd (omega arith)
  spin_loop-Spun (suc n) accept d = elim (Option-cases (accept (poll d).0)) [
    | inl e ↦ rw (e, spin_loop) (Spun-later e (spin_loop-Spun n accept (schedule (poll d).1)))
    | inr (r, e) ↦ rw (e, spin_loop) (answered 0 r (omega arith) (λ j l. absurd (omega arith)) e)
  ]

  module _ (request : List ℕ) where
    -- The state before attempt number `k`, if no attempt before it was answered.
    abbrev retried : ℕ → D → D
    retried zero d = d
    retried (suc k) d = retried k (waited spins_per_retry (send request d))

    -- No frame that is polled in an attempt is the answer.
    abbrev Unanswered : (List ℕ → Type 0) → D → Type 0
    Unanswered Other d = (i : ℕ) → i < spins_per_retry → Other (poll (waited i (send request d))).0

    -- What `n` attempts give: the first frame that is an answer, or nothing.
    pub data Asked {R : Type 0} (Answers : List ℕ → R → Type 0) (Other : List ℕ → Type 0) (n : ℕ)
        (d : D) : Option R → D → Type 0 where
      replied :
          (k : ℕ) (r : R) (d' : D)
          → k < n
          → ((j : ℕ) → j < k → Unanswered Other (retried j d))
          → Spun Answers Other spins_per_retry (send request (retried k d)) (some r) d'
          → Asked Answers Other n d (some r) d'
      timed_out :
          ((j : ℕ) → j < n → Unanswered Other (retried j d))
          → Asked Answers Other n d none (retried n d)

  module _ {R : Type 0} (request : List ℕ) (accept : List ℕ → Option R) where
    tried :
        (d : D) (n : ℕ)
        → Unanswered request (Refused accept) d
        → ((j : ℕ)
            → j < n
            → Unanswered request
                (Refused accept)
                (retried request j (waited spins_per_retry (send request d))))
        → (j : ℕ) → j < suc n
        → Unanswered request (Refused accept) (retried request j d)
    tried d n e h zero l = e
    tried d n e h (suc j) l = h j (omega arith)

    Asked-later :
        {n : ℕ} {d d' : D} {o : Option R}
        → Unanswered request (Refused accept) d
        → Asked request
            (Accepted accept)
            (Refused accept)
            n
            (waited spins_per_retry (send request d))
            o
            d'
        → Asked request (Accepted accept) (Refused accept) (suc n) d o d'
    Asked-later {d = d} e (replied k r d' l h a) =
        replied (suc k) r d' (omega arith) (tried d k e h) a
    Asked-later {n} {d} e (timed_out h) = timed_out (tried d n e h)

    Spun-silent :
        {n : ℕ} {d d' : D} {o : Option R}
        → Spun (Accepted accept) (Refused accept) n d o d'
        → o ≡ none
        → ((j : ℕ) → j < n → accept (poll (waited j d)).0 ≡ none) × (waited n d ≡ d')
    Spun-silent (answered k r l h a) e = cc
    Spun-silent (silent h) e = (h, refl)

    pub retry_loop-Asked :
        (n : ℕ) (d : D)
        → let (o, d') = retry_loop send poll schedule n request accept d in
          Asked request (Accepted accept) (Refused accept) n d o d'
    unfolding retry_loop
    retry_loop-Asked zero d = timed_out λ j l. absurd (omega arith)
    retry_loop-Asked (suc n) d =
        let spun = spin_loop send poll schedule spins_per_retry accept (send request d) in
        let found = spin_loop-Spun spins_per_retry accept (send request d) in
        elim (Option-cases spun.0) [
          | inl e ↦
              (let (h, same) = Spun-silent found e in
                rw (e, retry_loop)
                  (Asked-later h (
                    subst
                      (λ x.
                        let (o, d') = retry_loop send poll schedule n request accept x in
                        Asked request (Accepted accept) (Refused accept) n
                          (waited spins_per_retry (send request d)) o d')
                      same (retry_loop-Asked n (waited spins_per_retry (send request d))))))
          | inr (r, e) ↦
              rw (e, retry_loop)
                (replied 0 r spun.1 (omega arith) (λ j l. absurd (omega arith))
                  (subst
                    (λ o.
                      Spun (Accepted accept) (Refused accept) spins_per_retry (send request d) o
                        spun.1)
                    e found))
        ]

    -- A description of the frames that the test tells apart.
    module _ {Answers : List ℕ → R → Type 0} {Other : List ℕ → Type 0}
        (yes_is : (frame : List ℕ) (r : R) → accept frame ≡ some r → Answers frame r)
        (no_is : (frame : List ℕ) → accept frame ≡ none → Other frame) where
      described :
          {n : ℕ} {d d' : D} {o : Option R}
          → Spun (Accepted accept) (Refused accept) n d o d'
          → Spun Answers Other n d o d'
      described {d = d} (answered k r l h a) =
          answered k r l (λ j m. no_is (poll (waited j d)).0 (h j m))
            (yes_is (poll (waited k d)).0 r a)
      described {d = d} (silent h) = silent λ j m. no_is (poll (waited j d)).0 (h j m)

      not_yet : (d : D) → Unanswered request (Refused accept) d → Unanswered request Other d
      not_yet d h i l = no_is (poll (waited i (send request d))).0 (h i l)

      pub Asked-described :
          {n : ℕ} {d d' : D} {o : Option R}
          → Asked request (Accepted accept) (Refused accept) n d o d'
          → Asked request Answers Other n d o d'
      Asked-described {d = d} (replied k r d' l h a) =
          replied k r d' l (λ j m. not_yet (retried request j d) (h j m)) (described a)
      Asked-described {d = d} (timed_out h) = timed_out λ j m. not_yet (retried request j d) (h j m)
