-- ===== src/E1000/Card.antt =====
-- The card and the driver of kernel/src/e1000.c around the receive ring.
use reborn_os.Prelude.{
  ℕ, suc, ◌+◌, ◌-◌, ◌%◌, ◌≤◌, ◌<◌, ◌≡◌, refl, sym, ap, ap₂, ◌∙◌, ◌⊎◌, inl, inr, List, [], ◌∷◌, ◌++◌,
  length, true, false, ◌==◌, arith, Bool-cases, ==_ne, subst,
}
use reborn_os.E1000.Defs.{Nic}
use reborn_os.E1000.Receive.{
  bytes, bytes_same, frame_at, frames, frames_same, frames-snoc, next_slot, pending, contents,
  IsValid, IsApart,
}

-- What the manual of the 8254x says of a frame that the card stores: it goes to the buffer of the
-- descriptor at the head, the descriptor says how long it is and is marked as done, and the head
-- moves on.
pub record Delivered (frame : List ℕ) (s t : Nic) : Type 0 where
  pub stored : bytes (length frame) (s.rx_ring s.rdh).addr t.mem ≡ frame
  pub kept :
      (a : ℕ)
      → (a < (s.rx_ring s.rdh).addr) ⊎ ((s.rx_ring s.rdh).addr + 2048 ≤ a)
      → t.mem a ≡ s.mem a
  pub sized : (t.rx_ring s.rdh).length ≡ length frame
  pub marked : (t.rx_ring s.rdh).status % 2 ≡ 1
  pub addr_kept : (t.rx_ring s.rdh).addr ≡ (s.rx_ring s.rdh).addr
  pub others : (j : ℕ) → (j == s.rdh) ≡ false → t.rx_ring j ≡ s.rx_ring j
  pub head_moved : t.rdh ≡ (s.rdh + 1) % 8
  pub tail_kept : t.rx_tail ≡ s.rx_tail
  pub told_kept : t.rdt ≡ s.rdt

-- What the rest of the system does: it keeps the receive ring and its buffers.
pub record Elsewhere (s t : Nic) : Type 0 where
  pub ring_kept : t.rx_ring ≡ s.rx_ring
  pub head_kept : t.rdh ≡ s.rdh
  pub tail_kept : t.rx_tail ≡ s.rx_tail
  pub told_kept : t.rdt ≡ s.rdt
  pub buffers_kept :
      (i k : ℕ) → i < 8 → k < 2048 → t.mem ((s.rx_ring i).addr + k) ≡ s.mem ((s.rx_ring i).addr + k)

module _ (buf max_len : ℕ) where
  module _ (frame : List ℕ) (s t : Nic) (valid : IsValid 2048 s) (apart : IsApart buf max_len s)
      (card : Delivered frame s t) (room : (s.rdh == s.rdt) ≡ false)
      (fit : length frame ≤ 2048) where
    delivered-next_slot : next_slot t ≡ next_slot s
    delivered-next_slot = ap (λ k. (k + 1) % 8) card.tail_kept

    delivered-pending : pending t ≡ suc (pending s)
    delivered-pending =
        let h = card.head_moved in
        let e = card.tail_kept in
        let told = valid.told in
        let l = valid.head_in_ring in let u = valid.tail_in_ring in ground arith

    -- The slot behind the pending ones is the one at the head.
    head_slot : (next_slot s + pending s) % 8 ≡ s.rdh
    head_slot = let l = valid.head_in_ring in omega arith

    other_slot :
        (i : ℕ) → i < 8 → (i == pending s) ≡ false → ((next_slot s + i) % 8 == s.rdh) ≡ false
    other_slot i b ne =
        let l = valid.head_in_ring in ==_ne ((next_slot s + i) % 8) s.rdh (λ e. ground arith)

    delivered-frame_at :
        (j : ℕ)
        → j < 8
        → (j == s.rdh) ≡ false
        → (s.rx_ring j).length ≤ 2048
        → frame_at s j ≡ frame_at t j
    delivered-frame_at j b ne l =
        let other = apart.from_each_other j s.rdh b valid.head_in_ring ne in
        rw (card.others j ne) (
          bytes_same (s.rx_ring j).length (s.rx_ring j).addr (s.rx_ring j).addr s.mem t.mem
            λ i u. sym (card.kept ((s.rx_ring j).addr + i) (ground arith)))

    delivered-head : frame_at t s.rdh ≡ frame
    delivered-head = rw (card.sized, card.addr_kept) card.stored

    -- The new frame comes behind those that wait.
    pub delivered-contents : contents t ≡ contents s ++ (frame ∷ [])
    delivered-contents =
        rw (delivered-pending, delivered-next_slot)
          (frames-snoc (pending s) (next_slot s) t (omega arith)
            ∙ ap₂ (λ r f. r ++ (f ∷ []))
                (sym (
                  frames_same (pending s) (next_slot s) s t
                    (λ i b.
                      let fits = valid.fits i b in
                      delivered-frame_at ((next_slot s + i) % 8) (omega arith)
                        (other_slot i (omega arith) (==_ne i (pending s) (λ e. omega arith)))
                        fits.1)
                    (omega arith)))
                (ap (frame_at t) head_slot ∙ delivered-head))

    -- What is said of a slot by its number behind the tail.
    delivered-slot :
        (i : ℕ)
        → i < 8
        → (i == pending s) ≡ false
        → t.rx_ring ((next_slot t + i) % 8) ≡ s.rx_ring ((next_slot s + i) % 8)
    delivered-slot i b ne =
        rw delivered-next_slot (card.others ((next_slot s + i) % 8) (other_slot i b ne))

    new_slot : (i : ℕ) → (i == pending s) ≡ true → (next_slot t + i) % 8 ≡ s.rdh
    new_slot i e =
        let same : i ≡ pending s = ground arith in rw (same, delivered-next_slot) head_slot

    pub delivered-IsValid : 0 < length frame → IsValid 2048 t
    delivered-IsValid some_bytes =
        let p = delivered-pending in
        record {
          tail_in_ring = subst (λ k. k < 8) (sym card.tail_kept) valid.tail_in_ring;
          head_in_ring = subst (λ k. k < 8) (sym card.head_moved) (omega arith);
          told = card.told_kept ∙ (valid.told ∙ sym card.tail_kept);
          done = λ i b. elim (Bool-cases (i == pending s)) [
            | inl e ↦ rw (new_slot i e) card.marked
            | inr e ↦ rw (delivered-slot i (ground arith) e) (valid.done i (ground arith))
          ];
          empty = λ i b u.
              let ne : (i == pending s) ≡ false = ==_ne i (pending s) (λ e. omega arith) in
              rw (delivered-slot i u ne) (valid.empty i (omega arith) u);
          fits = λ i b. elim (Bool-cases (i == pending s)) [
            | inl e ↦ rw (new_slot i e, card.sized) (some_bytes, fit)
            | inr e ↦ rw (delivered-slot i (ground arith) e) (valid.fits i (ground arith))
          ];
        }

    delivered-addr : (j : ℕ) → (t.rx_ring j).addr ≡ (s.rx_ring j).addr
    delivered-addr j = elim (Bool-cases (j == s.rdh)) [
      | inl e ↦ (let here : j ≡ s.rdh = ground arith in rw here card.addr_kept)
      | inr e ↦ rw (card.others j e) refl
    ]

    pub delivered-IsApart : IsApart buf max_len t
    delivered-IsApart = record {
      from_caller = λ i l. rw (delivered-addr i) (apart.from_caller i l);
      from_each_other =
          λ i j l u ne. rw (delivered-addr i, delivered-addr j) (apart.from_each_other i j l u ne);
    }

  module _ (s t : Nic) (valid : IsValid 2048 s) (apart : IsApart buf max_len s)
      (step : Elsewhere s t) where
    pub elsewhere-IsValid : IsValid 2048 t
    elsewhere-IsValid =
        let told = step.told_kept ∙ (valid.told ∙ sym step.tail_kept) in
        record {
          tail_in_ring = rw step.tail_kept valid.tail_in_ring;
          head_in_ring = rw step.head_kept valid.head_in_ring;
          told = told;
          done = rw (step.ring_kept, step.head_kept, step.tail_kept) valid.done;
          empty = rw (step.ring_kept, step.head_kept, step.tail_kept) valid.empty;
          fits = rw (step.ring_kept, step.head_kept, step.tail_kept) valid.fits;
        }

    pub elsewhere-IsApart : IsApart buf max_len t
    elsewhere-IsApart = record {
      from_caller = rw step.ring_kept apart.from_caller;
      from_each_other = rw step.ring_kept apart.from_each_other;
    }

    elsewhere-frame_at : (j : ℕ) → j < 8 → (s.rx_ring j).length ≤ 2048 → frame_at t j ≡ frame_at s j
    elsewhere-frame_at j b l = rw step.ring_kept (
        bytes_same (s.rx_ring j).length (s.rx_ring j).addr (s.rx_ring j).addr t.mem s.mem
          λ i u. step.buffers_kept j i b (omega arith))

    pub elsewhere-contents : contents t ≡ contents s
    elsewhere-contents =
        let here : next_slot t ≡ next_slot s = ap (λ k. (k + 1) % 8) step.tail_kept in
        let count : pending t ≡ pending s = ap₂ (λ h k. (h + 8 - k) % 8) step.head_kept here in
        ap₂ (λ n k. frames n k t) count here
        ∙ frames_same (pending s) (next_slot s) t s
            (λ i b. elsewhere-frame_at ((next_slot s + i) % 8) (omega arith) (valid.fits i b).1)
            (omega arith)
