-- ===== src/E1000/Tests.antt =====
-- Runs of kernel/src/e1000.c.
use reborn_os.Prelude.{
  map, ℕ, suc, ◌+◌, ◌*◌, ◌≡◌, ◌<◌, zero, refl, get_or, Outcome, ok, panic, inl, [], ◌∷◌, ◌++◌, put,
  arith,
}
use reborn_os.Pmm.{Pmm, pmm_alloc_page, alloc_loop, claim}
use reborn_os.Pmm.Bitmap.{Bytes, bitmap_test, bitmap_set}
use reborn_os.Pmm.Valid
use reborn_os.Pmm.Valid.{count_free}
use reborn_os.E1000.Init.{OwnPages, init_rings-Ready}
use reborn_os.E1000.Defs.{
  Cause, init_rings, rx_loop, tx_loop, Nic, zero_rx, zero_tx, e1000_poll_receive, mac_bytes,
}
use reborn_os.E1000.Receive.{first, IsValid, IsApart, contents, bytes}
use reborn_os.E1000.Card.{Delivered}
use reborn_os.E1000.Fifo.{Run, stop, receives, polls, returned, receive_in_order}

abbrev empty_nic : Nic
empty_nic = record {
  rx_ring = λ i. record zero_rx { addr = 8192 + i * 4096 };
  tx_ring = λ i. record zero_tx { addr = 65536 + i * 4096 };
  rx_tail = 7;
  tx_tail = 0;
  rdh = 0;
  rdt = 7;
  tdt = 0;
  mem = λ a. 0;
}

empty_nic-IsValid : IsValid 2048 empty_nic
empty_nic-IsValid = record {
  tail_in_ring = omega arith;
  head_in_ring = omega arith;
  told = refl;
  done = λ i l. absurd (omega arith);
  empty = λ i l u. refl;
  fits = λ i l. absurd (omega arith);
}

empty_nic-IsApart : IsApart 4096 1518 empty_nic
empty_nic-IsApart = record {
  from_caller = λ i l. inl (omega arith);
  from_each_other = λ i j l u ne. ground arith;
}

-- The card has stored a frame of two bytes.
abbrev one_frame : Nic
one_frame = record empty_nic {
  mem = put (put (λ a. 0) 8192 5) 8193 6;
  rx_ring = put empty_nic.rx_ring 0 (record zero_rx { addr = 8192; length = 2; status = 3 });
  rdh = 1;
}

one_frame-Delivered : Delivered (5 ∷ 6 ∷ []) empty_nic one_frame
unfolding bytes
one_frame-Delivered = record {
  stored = refl;
  kept = λ a o. ground arith;
  sized = refl;
  marked = refl;
  addr_kept = refl;
  others = λ j ne. rw ne refl;
  head_moved = refl;
  tail_kept = refl;
  told_kept = refl;
}

abbrev polled_once : ℕ × Nic
polled_once = e1000_poll_receive 4096 1518 one_frame

one-Run :
    Run 4096 1518 empty_nic ((5 ∷ 6 ∷ []) ∷ []) (returned 4096 1518 polled_once ++ []) polled_once.1
one-Run = receives (5 ∷ 6 ∷ []) refl (omega arith) (omega arith) one_frame-Delivered (polls stop)

receive_in_order_example :
    map (first 1518) (contents empty_nic ++ ((5 ∷ 6 ∷ []) ∷ []))
    ≡ (returned 4096 1518 polled_once ++ []) ++ map (first 1518) (contents polled_once.1)
receive_in_order_example = receive_in_order empty_nic-IsValid empty_nic-IsApart one-Run

-- QEMU's 52:54:00:12:34:56.
default_mac : mac_bytes 0x12005452 0x80005634 ≡ 0x52 ∷ 0x54 ∷ 0 ∷ 0x12 ∷ 0x34 ∷ 0x56 ∷ []
unfolding mac_bytes
default_mac = refl

-- 24 pages, of which page 0 is in use.
abbrev pages_24 : Pmm
pages_24 = record { bitmap = 1 ∷ 0 ∷ 0 ∷ []; bitmap_bits = 24; free_pages = 23; search_hint = 1 }

three_bytes : Bytes (1 ∷ 0 ∷ 0 ∷ [])
three_bytes = record { byte = small }
  where
    small : (i : ℕ) → get_or (1 ∷ 0 ∷ 0 ∷ []) i 0 < 256
    small zero = omega arith
    small (suc zero) = omega arith
    small (suc (suc zero)) = omega arith
    small (suc (suc (suc i))) = omega arith

pages_24-IsValid : Valid.IsValid pages_24
unfolding count_free bitmap_test
pages_24-IsValid = record {
  storage = omega arith;
  bytes = three_bytes;
  small = omega arith;
  hint = omega arith;
  counted = refl;
}

pages_24-ZeroReserved : Valid.ZeroReserved pages_24
unfolding bitmap_test
pages_24-ZeroReserved = record { zero_used = λ h. refl }

-- The rings take pages 1 and 2, the buffers the pages from 3 on.
abbrev booted : Outcome Cause (Nic × Pmm)
booted = init_rings (λ a. 0) pages_24

abbrev booted_value : Nic × Pmm
booted_value = elim booted [ ok r ↦ r | panic e ↦ (empty_nic, pages_24) ]

boots : booted ≡ ok booted_value
unfolding init_rings rx_loop tx_loop pmm_alloc_page alloc_loop claim bitmap_test bitmap_set
boots = refl

init_rings-Ready_example :
    IsValid 1518 booted_value.0 × ((contents booted_value.0 ≡ []) × OwnPages booted_value.0)
init_rings-Ready_example =
    init_rings-Ready 1518 (λ a. 0) pages_24 booted_value pages_24-IsValid pages_24-ZeroReserved
      boots
