-- ===== src/E1000/Send.antt =====
-- e1000_send of kernel/src/e1000.c.
use native.Mathlib.Decide.{dec_lt}
use reborn_os.Prelude.{
  ℕ, zero, suc, ◌+◌, ◌%◌, ◌≤◌, ◌<◌, ◌≡◌, refl, ◌⊎◌, inl, inr, false, ltb, ◌==◌, put, arith,
  Bool-cases, ==_self,
}
use reborn_os.Prelude.{Outcome, ok, panic, ◌>>=◌}
use reborn_os.E1000.Defs.{
  Nic, Cause, frame_too_large, never_sent, sent_loop, send_reads, queue_frame, e1000_send,
}
use reborn_os.E1000.Receive.{bytes, bytes_same}
use reborn_os.E1000.Poll.{memcpy_inside, memcpy_outside}

-- What the reads of the status byte from number `i` on find: the first with the done bit, if one of
-- `n` has it.
data Seen (status : ℕ → ℕ) (i n : ℕ) : Outcome Cause ℕ → Type 0 where
  never : ((j : ℕ) → i ≤ j → j < i + n → status j % 2 ≡ 0) → Seen status i n (panic never_sent)
  done :
      (k : ℕ)
      → (i ≤ k) × (k < i + n)
      → ((j : ℕ) → i ≤ j → j < k → status j % 2 ≡ 0)
      → status k % 2 ≡ 1
      → Seen status i n (ok (status k))

Seen-later :
    {status : ℕ → ℕ} {i n : ℕ} {o : Outcome Cause ℕ}
    → status i % 2 ≡ 0
    → Seen status (i + 1) n o
    → Seen status i (suc n) o
Seen-later {i = i} e (never h) = never λ j l u. elim (dec_lt i j) [
  | yes p ↦ h j (omega arith) (omega arith)
  | no p ↦ (let same : j ≡ i = omega arith in rw same e)
]
Seen-later {i = i} e (done k (l, u) h d) =
    done k (omega arith, omega arith)
      (λ j l u. elim (dec_lt i j) [
        | yes p ↦ h j (omega arith) (omega arith)
        | no p ↦ (let same : j ≡ i = omega arith in rw same e)
      ])
      d

sent_loop-Seen : (n : ℕ) (status : ℕ → ℕ) (i : ℕ) → Seen status i n (sent_loop n status i)
unfolding sent_loop
sent_loop-Seen zero status i = never λ j l u. absurd (omega arith)
sent_loop-Seen (suc n) status i = elim (Bool-cases (status i % 2 == 0)) [
  | inl e ↦ rw e (Seen-later (ground arith) (sent_loop-Seen n status (i + 1)))
  | inr e ↦ rw e (done i (omega arith, omega arith) (λ j l u. absurd (omega arith)) (ground arith))
]

-- What a call of e1000_send with `len` bytes at `frame` comes to. `status i` is what read number `i`
-- of the descriptor's status shows.
pub data Sent (status : ℕ → ℕ) (frame len : ℕ) (s : Nic) : Outcome Cause Nic → Type 0 where
  too_large : 2048 < len → Sent status frame len s (panic frame_too_large)
  unsent :
      len ≤ 2048
      → ((i : ℕ) → i < send_reads → status i % 2 ≡ 0)
      → Sent status frame len s (panic never_sent)
  sent :
      (k : ℕ) (t : Nic)
      → len ≤ 2048
      → k < send_reads
      → ((i : ℕ) → i < k → status i % 2 ≡ 0)
      → status k % 2 ≡ 1
      → bytes len (t.tx_ring s.tx_tail).addr t.mem ≡ bytes len frame s.mem
      → ((t.tx_ring s.tx_tail).length ≡ len) × ((t.tx_ring s.tx_tail).cmd ≡ 11)
      → (t.tdt ≡ t.tx_tail) × (t.tx_tail ≡ (s.tx_tail + 1) % 8)
      → ((a : ℕ)
          → (a < (s.tx_ring s.tx_tail).addr) ⊎ ((s.tx_ring s.tx_tail).addr + len ≤ a)
          → t.mem a ≡ s.mem a)
      → ((j : ℕ) → (j == s.tx_tail) ≡ false → t.tx_ring j ≡ s.tx_ring j)
      → Sent status frame len s (ok t)

-- The state after the call, if the last read shows `seen`.
abbrev after : ℕ → ℕ → ℕ → Nic → Nic
after seen frame len s =
    let queued = queue_frame frame len s in
    let desc = queued.tx_ring s.tx_tail in
    record queued { tx_ring = put queued.tx_ring s.tx_tail (record desc { status = seen }) }

after-Sent :
    (status : ℕ → ℕ) (frame len : ℕ) (s : Nic) (o : Outcome Cause ℕ)
    → len ≤ 2048
    → ((s.tx_ring s.tx_tail).addr + len ≤ frame) ⊎ (frame + len ≤ (s.tx_ring s.tx_tail).addr)
    → Seen status 0 send_reads o
    → Sent status frame len s (o >>= λ seen. ok (after seen frame len s))
unfolding queue_frame
after-Sent status frame len s o fit apart (never h) =
    unsent fit λ i l. h i (omega arith) (omega arith)
after-Sent status frame len s o fit apart (done k (l, u) h d) =
    let to = (s.tx_ring s.tx_tail).addr in
    let self = ==_self s.tx_tail in
    sent k (after (status k) frame len s) fit (omega arith) (λ i b. h i (omega arith) b) d
      (rw (self) (
        bytes_same len to frame (after (status k) frame len s).mem s.mem
          λ i b. memcpy_inside s.mem to frame len i apart b))
      (rw self (refl, refl)) (refl, refl) (λ a b. memcpy_outside s.mem to frame len a apart b)
      (λ j ne. rw ne refl)

-- With the frame apart from the buffer of the next slot, e1000_send halts if the frame has more than
-- 2048 bytes or the card does not report it as done within 100000001 reads. Otherwise it returns at
-- the first report, with the frame's bytes in the slot's buffer, its length and the command bits in
-- the descriptor, the tail one slot on and told to the card, and all other memory and descriptors as
-- they were.
pub e1000_send-Sent :
    (status : ℕ → ℕ) (frame len : ℕ) (s : Nic)
    → ((s.tx_ring s.tx_tail).addr + len ≤ frame) ⊎ (frame + len ≤ (s.tx_ring s.tx_tail).addr)
    → Sent status frame len s (e1000_send status frame len s)
unfolding e1000_send
e1000_send-Sent status frame len s apart = elim (Bool-cases (ltb 2048 len)) [
  | inl e ↦ rw e (too_large (ground arith))
  | inr e ↦ rw e (
      after-Sent status frame len s (sent_loop send_reads status 0) (ground arith) apart
        (sent_loop-Seen send_reads status 0))
]
