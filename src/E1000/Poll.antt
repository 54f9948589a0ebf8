-- ===== src/E1000/Poll.antt =====
-- e1000_poll_receive of kernel/src/e1000.c takes the oldest frame.
use reborn_os.Prelude.{
  min, map, ℕ, suc, ◌+◌, ◌-◌, ◌%◌, ◌≤◌, ◌<◌, ◌≡◌, refl, sym, ap, ap₂, ◌∙◌, ◌⊎◌, inl, inr, List, [],
  ◌∷◌, ltb, false, ◌==◌, if◌then◌else◌, put, arith, Bool-cases, ==_ne, ==_self, subst, true,
  zero_or_suc,
}
use reborn_os.Minilib.{memcpy, memcpy-copied}
use reborn_os.E1000.Defs.{Nic, e1000_poll_receive}
use reborn_os.E1000.Receive.{
  first, first-bytes, bytes, bytes_same, frame_at, frames, frames_same, next_slot, pending,
  contents, IsValid, IsApart,
}

-- The state once the oldest frame is taken, as much of it as the caller has room for.
abbrev taken : ℕ → ℕ → Nic → Nic
taken buf max_len s =
    let slot = next_slot s in
    let desc = s.rx_ring slot in
    record s {
      mem = memcpy s.mem buf desc.addr (min desc.length max_len);
      rx_ring = put s.rx_ring slot (record desc { status = 0 });
      rx_tail = slot;
      rdt = slot;
    }

poll-taken :
    (buf max_len : ℕ) (s : Nic)
    → (s.rx_ring (next_slot s)).status % 2 ≡ 1
    → e1000_poll_receive buf max_len s ≡ ((s.rx_ring (next_slot s)).length, taken buf max_len s)
unfolding e1000_poll_receive
poll-taken buf max_len s d =
    let len = (s.rx_ring (next_slot s)).length in
    let test : ((s.rx_ring (next_slot s)).status % 2 == 0) ≡ false = ground arith in
    let size : (if ltb len max_len then len else max_len) ≡ min len max_len = ground arith in
    rw (test, size) refl

-- A copy changes no byte outside its destination.
pub memcpy_outside :
    (m : ℕ → ℕ) (dst src n a : ℕ)
    → (dst + n ≤ src) ⊎ (src + n ≤ dst)
    → (a < dst) ⊎ (dst + n ≤ a)
    → memcpy m dst src n a ≡ m a
memcpy_outside m dst src n a h o = memcpy-copied m dst src n a (ground arith) ∙ ground arith

pub memcpy_inside :
    (m : ℕ → ℕ) (dst src n i : ℕ)
    → (dst + n ≤ src) ⊎ (src + n ≤ dst)
    → i < n
    → memcpy m dst src n (dst + i) ≡ m (src + i)
memcpy_inside m dst src n i h l =
    let back : src + (dst + i - dst) ≡ src + i = omega arith in
    memcpy-copied m dst src n (dst + i) (ground arith) ∙ (ground arith ∙ ap m back)

module _ (buf max_len : ℕ) (s : Nic) (apart : IsApart buf max_len s) where
  -- The frames of the other slots are as they were.
  taken-frame_at :
      (j : ℕ)
      → j < 8
      → (j == next_slot s) ≡ false
      → (s.rx_ring (next_slot s)).length ≤ 2048
      → (s.rx_ring j).length ≤ 2048
      → frame_at s j ≡ frame_at (taken buf max_len s) j
  taken-frame_at j l ne here there =
      let slot = next_slot s in
      let from = apart.from_caller slot (omega arith) in
      let other = apart.from_caller j l in
      rw ne (
        bytes_same (s.rx_ring j).length (s.rx_ring j).addr (s.rx_ring j).addr s.mem
          (taken buf max_len s).mem
          λ i b. sym (
            memcpy_outside s.mem buf (s.rx_ring slot).addr (min (s.rx_ring slot).length max_len)
              ((s.rx_ring j).addr + i) (ground arith) (ground arith)))

  -- As much of the oldest frame as there is room for is in the caller's buffer.
  taken-oldest :
      (s.rx_ring (next_slot s)).length ≤ 2048
      → first max_len (frame_at s (next_slot s))
        ≡ bytes (min (s.rx_ring (next_slot s)).length max_len) buf (taken buf max_len s).mem
  taken-oldest here =
      let slot = next_slot s in
      let from = apart.from_caller slot (omega arith) in
      let size = min (s.rx_ring slot).length max_len in
      first-bytes max_len (s.rx_ring slot).length (s.rx_ring slot).addr s.mem
      ∙ bytes_same size (s.rx_ring slot).addr buf s.mem (taken buf max_len s).mem
          λ i b. sym (memcpy_inside s.mem buf (s.rx_ring slot).addr size i (ground arith) b)

  module _ (n : ℕ) (valid : IsValid 2048 s) (waits : pending s ≡ suc n) where
    taken-pending : pending (taken buf max_len s) ≡ n
    taken-pending = let l = valid.head_in_ring in omega arith

    -- Slot `i` behind the new tail is slot `i + 1` behind the old one.
    shifted : (i : ℕ) → (next_slot (taken buf max_len s) + i) % 8 ≡ (next_slot s + (i + 1)) % 8
    shifted i = omega arith

    oldest_fits : (0 < (s.rx_ring (next_slot s)).length) × ((s.rx_ring (next_slot s)).length ≤ 2048)
    oldest_fits =
        let here : (next_slot s + 0) % 8 ≡ next_slot s = omega arith in
        subst (λ k. (0 < (s.rx_ring k).length) × ((s.rx_ring k).length ≤ 2048)) here
          (valid.fits 0 (omega arith))

    -- A slot behind the oldest is another slot.
    behind : (i : ℕ) → i < 7 → ((next_slot s + (i + 1)) % 8 == next_slot s) ≡ false
    behind i l = ==_ne ((next_slot s + (i + 1)) % 8) (next_slot s) (λ e. omega arith)

    taken-slot :
        (i : ℕ)
        → i < 7
        → (taken buf max_len s).rx_ring ((next_slot (taken buf max_len s) + i) % 8)
          ≡ s.rx_ring ((next_slot s + (i + 1)) % 8)
    taken-slot i l = rw (shifted i, behind i l) refl

    taken-rest : frames n (next_slot (taken buf max_len s)) s ≡ contents (taken buf max_len s)
    taken-rest =
        frames_same n (next_slot (taken buf max_len s)) s (taken buf max_len s)
          (λ i b.
            let fit = valid.fits (i + 1) (omega arith) in
            rw (shifted i) (
              taken-frame_at ((next_slot s + (i + 1)) % 8) (omega arith) (behind i (omega arith))
                oldest_fits.1 fit.1))
          (omega arith)
        ∙ ap (λ k. frames k (next_slot (taken buf max_len s)) (taken buf max_len s))
            (sym taken-pending)

    -- The oldest frame comes first.
    contents-oldest :
        map (first max_len) (contents s)
        ≡ bytes (min (s.rx_ring (next_slot s)).length max_len) buf (taken buf max_len s).mem
          ∷ map (first max_len) (contents (taken buf max_len s))
    unfolding frames
    contents-oldest =
        rw waits (ap₂ (λ f r. f ∷ map (first max_len) r) (taken-oldest oldest_fits.1) taken-rest)

    taken-IsValid : IsValid 2048 (taken buf max_len s)
    taken-IsValid =
        let p = taken-pending in
        record {
          tail_in_ring = omega arith;
          head_in_ring = valid.head_in_ring;
          told = refl;
          done = λ i l. rw (taken-slot i (omega arith)) (valid.done (i + 1) (omega arith));
          empty = λ i l u. elim (Bool-cases (i == 7)) [
            | inl e ↦
                (let here : (next_slot (taken buf max_len s) + i) % 8 ≡ next_slot s =
                    ground arith in
                  rw (here, ==_self (next_slot s)) refl)
            | inr e ↦
                rw (taken-slot i (ground arith)) (valid.empty (i + 1) (omega arith) (ground arith))
          ];
          fits = λ i l. rw (taken-slot i (omega arith)) (valid.fits (i + 1) (omega arith));
        }

  taken-addr : (j : ℕ) → ((taken buf max_len s).rx_ring j).addr ≡ (s.rx_ring j).addr
  taken-addr j = elim (Bool-cases (j == next_slot s)) [
    | inl e ↦ (let here : j ≡ next_slot s = ground arith in rw (here, ==_self (next_slot s)) refl)
    | inr e ↦ rw e refl
  ]

  taken-IsApart : IsApart buf max_len (taken buf max_len s)
  taken-IsApart = record {
    from_caller = λ i l. rw (taken-addr i) (apart.from_caller i l);
    from_each_other =
        λ i j l u ne. rw (taken-addr i, taken-addr j) (apart.from_each_other i j l u ne);
  }

-- What a poll does to the frames that wait, cut to the caller's room, `q`.
pub data Polled (buf max_len : ℕ) (s : Nic) : List (List ℕ) → ℕ × Nic → Type 0 where
  nothing : Polled buf max_len s [] (0, s)
  oldest :
      (len : ℕ) (s' : Nic)
      → 0 < len
      → IsValid 2048 s'
      → IsApart buf max_len s'
      → Polled buf max_len s
          (bytes (min len max_len) buf s'.mem ∷ map (first max_len) (contents s'))
          (len, s')

pub e1000_poll_receive-Polled :
    (buf max_len : ℕ) (s : Nic)
    → IsValid 2048 s
    → IsApart buf max_len s
    → Polled buf max_len s (map (first max_len) (contents s)) (e1000_poll_receive buf max_len s)
unfolding e1000_poll_receive frames
e1000_poll_receive-Polled buf max_len s valid apart = elim (zero_or_suc (pending s)) [
  | inl z ↦
      (let here : (next_slot s + 0) % 8 ≡ next_slot s = omega arith in
        let clear : (s.rx_ring (next_slot s)).status % 2 ≡ 0 =
          subst (λ k. (s.rx_ring k).status % 2 ≡ 0) here
            (valid.empty 0 (omega arith) (omega arith)) in
        let test : ((s.rx_ring (next_slot s)).status % 2 == 0) ≡ true = ground arith in
        rw (z, test) nothing)
  | inr (n, e) ↦
      (let here : (next_slot s + 0) % 8 ≡ next_slot s = omega arith in
        let full : (s.rx_ring (next_slot s)).status % 2 ≡ 1 =
          subst (λ k. (s.rx_ring k).status % 2 ≡ 1) here (valid.done 0 (omega arith)) in
        let (some_bytes, fit) = oldest_fits buf max_len s apart n valid e in
        rw (contents-oldest buf max_len s apart n valid e, poll-taken buf max_len s full)
          (oldest (s.rx_ring (next_slot s)).length (taken buf max_len s) some_bytes
            (taken-IsValid buf max_len s apart n valid e) (taken-IsApart buf max_len s apart)))
]
