-- ===== src/E1000/Defs.antt =====
-- The rings of kernel/src/e1000.c. A ring is a map from a slot to its descriptor, and lies apart from
-- the memory of the buffers, which is a map from an address to a byte. A call holds its lock from
-- start to end, so it is one step.
use reborn_os.Prelude.{
  ℕ, zero, suc, ◌+◌, ◌-◌, ◌/◌, ◌%◌, ◌^◌, ◌||◌, List, [], ◌∷◌, ltb, ◌==◌, if◌then◌else◌, put, u8,
}
use reborn_os.Prelude.{Outcome, ok, panic, ◌>>=◌}
use reborn_os.Minilib.{memcpy}
use reborn_os.Pmm.{Pmm, pmm_alloc_page}

-- e1000_rx_desc_t
pub record RxDesc : Type 0 where
  pub addr : ℕ
  pub length : ℕ
  pub checksum : ℕ
  pub status : ℕ
  pub errors : ℕ
  pub special : ℕ

-- e1000_tx_desc_t
pub record TxDesc : Type 0 where
  pub addr : ℕ
  pub length : ℕ
  pub cso : ℕ
  pub cmd : ℕ
  pub status : ℕ
  pub css : ℕ
  pub special : ℕ

abbrev pub desc_count : ℕ
desc_count = 8

abbrev pub buf_size : ℕ
buf_size = 2048

-- The variables of the driver, the registers of the card that say how far each side is (RDH, RDT,
-- TDT), and the memory that they share.
pub record Nic : Type 0 where
  pub rx_ring : ℕ → RxDesc
  pub tx_ring : ℕ → TxDesc
  pub rx_tail : ℕ
  pub tx_tail : ℕ
  pub rdh : ℕ
  pub rdt : ℕ
  pub tdt : ℕ
  pub mem : ℕ → ℕ

-- The messages of panic().
pub data Cause : Type 0 where
  no_rings : Cause
  no_rx_buffer : Cause
  no_tx_buffer : Cause
  frame_too_large : Cause
  never_sent : Cause

abbrev pub zero_rx : RxDesc
zero_rx = record { addr = 0; length = 0; checksum = 0; status = 0; errors = 0; special = 0 }

abbrev pub zero_tx : TxDesc
zero_tx = record { addr = 0; length = 0; cso = 0; cmd = 0; status = 0; css = 0; special = 0 }

-- The part of e1000_get_mac that is not a copy: the six bytes of RAL0 and RAH0.
unfoldable pub mac_bytes : ℕ → ℕ → List ℕ
mac_bytes ral rah =
    u8 ral
    ∷ u8 (ral / 2 ^ 8)
    ∷ u8 (ral / 2 ^ 16)
    ∷ u8 (ral / 2 ^ 24)
    ∷ u8 rah
    ∷ u8 (rah / 2 ^ 8)
    ∷ []

-- The test of the status byte for DESC_STATUS_DD is its lowest bit.
unfoldable pub e1000_poll_receive : ℕ → ℕ → Nic → ℕ × Nic
e1000_poll_receive buf max_len s =
    let slot = (s.rx_tail + 1) % desc_count in
    let desc = s.rx_ring slot in
    let copy_len = if ltb desc.length max_len then desc.length else max_len in
    if desc.status % 2 == 0 then (0, s) else (
      desc.length,
      record s {
        mem = memcpy s.mem buf desc.addr copy_len;
        rx_ring = put s.rx_ring slot (record desc { status = 0 });
        rx_tail = slot;
        rdt = slot;
      },
    )

-- The loop of e1000_send from read number `i` of the status byte on. `status` is what the card shows
-- at each read.
unfoldable pub sent_loop : ℕ → (ℕ → ℕ) → ℕ → Outcome Cause ℕ
sent_loop zero status i = panic never_sent
sent_loop (suc spins) status i =
    let rest = sent_loop spins status (i + 1) in if status i % 2 == 0 then rest else ok (status i)

abbrev pub send_reads : ℕ
send_reads = 100000001

-- The frame in its slot, with the tail moved on.
unfoldable pub queue_frame : ℕ → ℕ → Nic → Nic
queue_frame frame len s =
    let desc = s.tx_ring s.tx_tail in
    let tail = (s.tx_tail + 1) % desc_count in
    record s {
      mem = memcpy s.mem desc.addr frame len;
      tx_ring =
          put s.tx_ring s.tx_tail (record desc { length = len; cso = 0; cmd = 11; status = 0 });
      tx_tail = tail;
      tdt = tail;
    }

unfoldable pub e1000_send : (ℕ → ℕ) → ℕ → ℕ → Nic → Outcome Cause Nic
e1000_send status frame len s =
    if ltb buf_size len
    then panic frame_too_large
    else (sent_loop send_reads status 0 >>= λ seen.
        let queued = queue_frame frame len s in
        let desc = queued.tx_ring s.tx_tail in
        ok (record queued {
          tx_ring = put queued.tx_ring s.tx_tail (record desc { status = seen });
        }))

-- The loops of e1000_init that give each slot from `i` on its buffer.
unfoldable pub rx_loop : ℕ → ℕ → (ℕ → RxDesc) → Pmm → Outcome Cause ((ℕ → RxDesc) × Pmm)
rx_loop zero i ring p = ok (ring, p)
rx_loop (suc rounds) i ring p =
    let (page, p') = pmm_alloc_page p in
    let rest =
      rx_loop rounds (i + 1) (put ring i (record (ring i) { addr = page; status = 0 })) p' in
    if page == 0 then panic no_rx_buffer else rest

unfoldable pub tx_loop : ℕ → ℕ → (ℕ → TxDesc) → Pmm → Outcome Cause ((ℕ → TxDesc) × Pmm)
tx_loop zero i ring p = ok (ring, p)
tx_loop (suc rounds) i ring p =
    let (page, p') = pmm_alloc_page p in
    let rest =
      tx_loop rounds (i + 1) (put ring i (record (ring i) { addr = page; status = 0 })) p' in
    if page == 0 then panic no_tx_buffer else rest

-- e1000_init from the rings' pages on. `mem` is memory at the end.
unfoldable pub init_rings : (ℕ → ℕ) → Pmm → Outcome Cause (Nic × Pmm)
init_rings mem p =
    let (rx, p₁) = pmm_alloc_page p in
    let (tx, p₂) = pmm_alloc_page p₁ in
    if (rx == 0) || (tx == 0)
    then panic no_rings
    else (rx_loop desc_count 0 (λ i. zero_rx) p₂ >>= λ (rx_ring, p₃).
        tx_loop desc_count 0 (λ i. zero_tx) p₃ >>= λ (tx_ring, p₄). ok (
          record {
            rx_ring = rx_ring;
            tx_ring = tx_ring;
            rx_tail = desc_count - 1;
            tx_tail = 0;
            rdh = 0;
            rdt = desc_count - 1;
            tdt = 0;
            mem = mem;
          },
          p₄,
        ))
