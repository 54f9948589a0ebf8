-- ===== src/E1000/Receive.antt =====
-- The receive ring of kernel/src/e1000.c as a sequence of frames.
use reborn_os.Prelude.{
  min, ℕ, zero, suc, ◌+◌, ◌-◌, ◌%◌, ◌≤◌, ◌<◌, ◌≡◌, refl, ap, ap₂, ◌∙◌, ◌⊎◌, List, [], ◌∷◌, ◌++◌,
  subst, false, ◌==◌, arith,
}
use reborn_os.E1000.Defs.{Nic}

-- `n` bytes from an address on.
unfoldable pub bytes : ℕ → ℕ → (ℕ → ℕ) → List ℕ
bytes zero a m = []
bytes (suc n) a m = m a ∷ bytes n (a + 1) m

moved : (m m' : ℕ → ℕ) (x y j k : ℕ) → x ≡ j → y ≡ k → m x ≡ m' y → m j ≡ m' k
moved m m' x y j k p q e = cc

pub bytes_same :
    (n a b : ℕ) (m m' : ℕ → ℕ)
    → ((i : ℕ) → i < n → m (a + i) ≡ m' (b + i))
    → bytes n a m ≡ bytes n b m'
unfolding bytes
bytes_same zero a b m m' h = refl
bytes_same (suc n) a b m m' h =
    ap₂ (λ x l. x ∷ l)
      (moved m m' (a + 0) (b + 0) a b (omega arith) (omega arith) (h 0 (omega arith)))
      (bytes_same n (a + 1) (b + 1) m m' λ i l.
        moved m m' (a + (i + 1)) (b + (i + 1)) (a + 1 + i) (b + 1 + i) (omega arith) (omega arith)
          (h (i + 1) (omega arith)))

-- The first bytes of a frame.
unfoldable pub first : ℕ → List ℕ → List ℕ
first zero frame = []
first (suc n) [] = []
first (suc n) (b ∷ frame) = b ∷ first n frame

pub first-bytes : (k n a : ℕ) (m : ℕ → ℕ) → first k (bytes n a m) ≡ bytes (min n k) a m
unfolding first bytes
first-bytes zero n a m = let none_left : min n 0 ≡ 0 = omega arith in rw none_left refl
first-bytes (suc k) zero a m =
    let none_there : min 0 (suc k) ≡ 0 = omega arith in rw none_there refl
first-bytes (suc k) (suc n) a m =
    let one_less : min (suc n) (suc k) ≡ suc (min n k) = omega arith in
    rw one_less (ap (λ r. m a ∷ r) (first-bytes k n (a + 1) m))

-- What the descriptor of a slot says was received there.
abbrev pub frame_at : Nic → ℕ → List ℕ
frame_at s slot = bytes (s.rx_ring slot).length (s.rx_ring slot).addr s.mem

-- The frames of `n` slots from slot `t` on, round the ring.
unfoldable pub frames : ℕ → ℕ → Nic → List (List ℕ)
frames zero t s = []
frames (suc n) t s = frame_at s t ∷ frames n ((t + 1) % 8) s

pub frames_same :
    (n t : ℕ) (s s' : Nic)
    → ((i : ℕ) → i < n → frame_at s ((t + i) % 8) ≡ frame_at s' ((t + i) % 8))
    → t < 8
    → frames n t s ≡ frames n t s'
unfolding frames
frames_same zero t s s' h l = refl
frames_same (suc n) t s s' h l =
    let here : (t + 0) % 8 ≡ t = omega arith in
    let first : frame_at s t ≡ frame_at s' t =
      subst (λ k. frame_at s k ≡ frame_at s' k) here (h 0 (omega arith)) in
    ap₂ (λ x r. x ∷ r) first
      (frames_same n ((t + 1) % 8) s s'
        (λ i b.
          let next : (t + (i + 1)) % 8 ≡ ((t + 1) % 8 + i) % 8 = omega arith in
          subst (λ k. frame_at s k ≡ frame_at s' k) next (h (i + 1) (omega arith)))
        (omega arith))

pub frames-snoc :
    (n t : ℕ) (s : Nic)
    → t < 8
    → frames (suc n) t s ≡ frames n t s ++ (frame_at s ((t + n) % 8) ∷ [])
unfolding frames
frames-snoc zero t s l = let here : (t + 0) % 8 ≡ t = omega arith in rw here refl
frames-snoc (suc n) t s l =
    let last : ((t + 1) % 8 + n) % 8 ≡ (t + suc n) % 8 = omega arith in
    ap (λ r. frame_at s t ∷ r)
      (frames-snoc n ((t + 1) % 8) s (omega arith)
        ∙ ap (λ k. frames n ((t + 1) % 8) s ++ (frame_at s k ∷ [])) last)

abbrev pub next_slot : Nic → ℕ
next_slot s = (s.rx_tail + 1) % 8

-- The slots that the card has filled and the driver has not emptied.
abbrev pub pending : Nic → ℕ
pending s = (s.rdh + 8 - next_slot s) % 8

-- The frames that wait in the ring, the oldest first.
abbrev pub contents : Nic → List (List ℕ)
contents s = frames (pending s) (next_slot s) s

-- Between two calls: the card is told of the tail, exactly the pending slots are marked as done, and
-- each holds a frame of at most `longest` bytes.
pub record IsValid (longest : ℕ) (s : Nic) : Type 0 where
  pub tail_in_ring : s.rx_tail < 8
  pub head_in_ring : s.rdh < 8
  pub told : s.rdt ≡ s.rx_tail
  pub done : (i : ℕ) → i < pending s → (s.rx_ring ((next_slot s + i) % 8)).status % 2 ≡ 1
  pub empty : (i : ℕ) → pending s ≤ i → i < 8 → (s.rx_ring ((next_slot s + i) % 8)).status % 2 ≡ 0
  pub fits :
      (i : ℕ)
      → i < pending s
      → (0 < (s.rx_ring ((next_slot s + i) % 8)).length)
        × ((s.rx_ring ((next_slot s + i) % 8)).length ≤ longest)

-- The buffers of the ring lie apart from each other and from the caller's.
pub record IsApart (buf max_len : ℕ) (s : Nic) : Type 0 where
  pub from_caller :
      (i : ℕ) → i < 8 → (buf + max_len ≤ (s.rx_ring i).addr) ⊎ ((s.rx_ring i).addr + 2048 ≤ buf)
  pub from_each_other :
      (i j : ℕ)
      → i < 8
      → j < 8
      → (i == j) ≡ false
      → ((s.rx_ring i).addr + 2048 ≤ (s.rx_ring j).addr)
        ⊎ ((s.rx_ring j).addr + 2048 ≤ (s.rx_ring i).addr)
