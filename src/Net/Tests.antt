-- ===== src/Net/Tests.antt =====
-- Runs of kernel/src/net.c against a card whose frames wait in a list.
use reborn_os.Prelude.{ℕ, ◌≡◌, ◌+◌, refl, List, [], ◌∷◌, ◌++◌, some, length, arith, get_or}
use reborn_os.Net.Defs.{
  checksum16, word16, htons16, sum_loop, fold_loop, ping_packet, net_arp_resolve, arp_reply,
  retry_loop, spin_loop, same_bytes,
}
use reborn_os.Net.Checksum.{checksum16-verify}
use reborn_os.Net.Packets.{slice, ping_packet_valid}
use reborn_os.Net.Polling.{Asked}
use reborn_os.Net.Arp.{IsArpReply, IsOther, request_for, net_arp_resolve-Asked}

-- The words 0x4500 and 0x003C around a checksum field.
checksum16-verify_example :
    checksum16 (
      (0x45 ∷ 0 ∷ [])
      ++ (word16 (htons16 (checksum16 ((0x45 ∷ 0 ∷ []) ++ (word16 0 ++ (0 ∷ 0x3C ∷ [])))))
          ++ (0 ∷ 0x3C ∷ [])))
    ≡ 0
checksum16-verify_example =
    checksum16-verify (0x45 ∷ 0 ∷ []) (0 ∷ 0x3C ∷ []) (omega arith) (omega arith)

checksum : checksum16 (0x45 ∷ 0 ∷ 0 ∷ 0x3C ∷ 7 ∷ []) ≡ 0xB3C3
unfolding checksum16 sum_loop fold_loop
checksum = refl

abbrev gateway : ℕ → ℕ
gateway i = get_or (10 ∷ 0 ∷ 2 ∷ 2 ∷ []) i 0

abbrev our_card : ℕ → ℕ
our_card i = 0x52 + i

ping_packet_valid_example :
    let packet = ping_packet our_card gateway our_card 1 2 in
    (length packet ≡ 74)
    × (checksum16 (slice packet 14 20) ≡ 0)
    × (checksum16 (slice packet 34 40) ≡ 0)
ping_packet_valid_example = ping_packet_valid our_card gateway our_card 1 2

-- A card with two frames: one too short, then the reply of the gateway.
abbrev reply : List ℕ
reply =
    0 ∷ 0 ∷ 0 ∷ 0 ∷ 0 ∷ 0 ∷ 0 ∷ 0 ∷ 0 ∷ 0 ∷ 0 ∷ 0 ∷ 8 ∷ 6 ∷ 0 ∷ 1 ∷ 8 ∷ 0 ∷ 6 ∷ 4 ∷ 0 ∷ 2 ∷ 1 ∷ 2
    ∷ 3 ∷ 4 ∷ 5 ∷ 6 ∷ 10 ∷ 0 ∷ 2 ∷ 2 ∷ 0 ∷ 0 ∷ 0 ∷ 0 ∷ 0 ∷ 0 ∷ 0 ∷ 0 ∷ 0 ∷ 0 ∷ []

abbrev frames : List (List ℕ)
frames = (1 ∷ 2 ∷ []) ∷ reply ∷ []

abbrev no_effect : {A : Type 0} → A → List (List ℕ) → List (List ℕ)
no_effect request waiting = waiting

abbrev take_frame : List (List ℕ) → List ℕ × List (List ℕ)
take_frame [] = ([], [])
take_frame (frame ∷ waiting) = (frame, waiting)

abbrev keep : List (List ℕ) → List (List ℕ)
keep waiting = waiting

net_arp_resolve-Asked_example :
    let (o, d') = net_arp_resolve no_effect take_frame keep our_card gateway frames in
    Asked no_effect take_frame keep
      (request_for our_card gateway)
      (λ frame mac. IsArpReply gateway frame mac)
      (IsOther gateway)
      20
      frames
      o
      d'
net_arp_resolve-Asked_example =
    net_arp_resolve-Asked no_effect take_frame keep our_card gateway frames

resolved :
    (net_arp_resolve no_effect take_frame keep our_card gateway frames).0
    ≡ some (1 ∷ 2 ∷ 3 ∷ 4 ∷ 5 ∷ 6 ∷ [])
unfolding net_arp_resolve retry_loop spin_loop arp_reply same_bytes htons16
resolved = refl
