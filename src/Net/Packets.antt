-- ===== src/Net/Packets.antt =====
-- The packet of net_ping in kernel/src/net.c: its length and its two checksums.
use reborn_os.Prelude.{ℕ, zero, suc, get_or, ◌+◌, ◌≡◌, refl, List, [], ◌∷◌, ◌++◌, length, arith}
use reborn_os.Net.Defs.{
  htons16, checksum16, word16, bytes4, net_our_ip, eth_header, ipv4_header, payload_loop, payload,
  icmp_message, ipv4_part, icmp_part, ping_packet,
}
use reborn_os.Net.Checksum.{checksum16-verify}

ipv4_part_valid : (ip : ℕ → ℕ) → checksum16 (ipv4_part ip) ≡ 0
unfolding ipv4_part ipv4_header
ipv4_part_valid ip =
    checksum16-verify
      ((0x45 ∷ 0 ∷ []) ++ word16 (htons16 60) ++ word16 (htons16 1) ++ word16 0 ++ (64 ∷ 1 ∷ []))
      (net_our_ip ++ bytes4 ip) (omega arith) (omega arith)

icmp_part_valid : (identifier sequence : ℕ) → checksum16 (icmp_part identifier sequence) ≡ 0
unfolding icmp_part icmp_message payload payload_loop
icmp_part_valid identifier sequence =
    checksum16-verify (8 ∷ 0 ∷ [])
      (word16 (htons16 identifier) ++ word16 (htons16 sequence) ++ payload) (omega arith)
      (omega arith)

-- A part of a frame.
abbrev pub slice : List ℕ → ℕ → ℕ → List ℕ
slice frame from zero = []
slice frame from (suc n) = get_or frame from 0 ∷ slice frame (from + 1) n

-- For every address, identifier and sequence number, the packet that net_ping sends is 74 bytes
-- long, and the checksum of its IPv4 header and that of its ICMP message, taken over the bytes
-- that are sent, are both 0.
pub ping_packet_valid :
    (our_mac ip mac : ℕ → ℕ) (identifier sequence : ℕ)
    → let packet = ping_packet our_mac ip mac identifier sequence in
      (length packet ≡ 74)
      × (checksum16 (slice packet 14 20) ≡ 0)
      × (checksum16 (slice packet 34 40) ≡ 0)
unfolding ping_packet eth_header ipv4_part ipv4_header icmp_part icmp_message payload payload_loop
ping_packet_valid our_mac ip mac identifier sequence =
    (refl, ipv4_part_valid ip, icmp_part_valid identifier sequence)
