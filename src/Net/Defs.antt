-- ===== src/Net/Defs.antt =====
-- The functions of kernel/src/net.c. A frame is the list of its bytes, and a 16-bit field is stored
-- with the low byte first. The card and schedule() are one state of a type of their own.
use reborn_os.Prelude.{
  ℕ, zero, suc, ◌+◌, ◌-◌, ◌*◌, ◌/◌, ◌%◌, ◌^◌, Bool, true, ◌&&◌, Option, none, some, List, [], ◌∷◌,
  ◌++◌, length, get_or, leb, ◌==◌, if◌then◌else◌, u8, u32,
}

abbrev pub u16 : ℕ → ℕ
u16 n = n % 2 ^ 16

unfoldable pub htons16 : ℕ → ℕ
htons16 v = u16 (v * 256 + v / 256)

-- The first two loops of checksum16. The low byte of `p[0] << 8` is 0, so `|` adds.
unfoldable pub sum_loop : List ℕ → ℕ → ℕ
sum_loop [] sum = sum
sum_loop (a ∷ []) sum = u32 (sum + u16 (a * 256))
sum_loop (a ∷ b ∷ rest) sum = sum_loop rest (u32 (sum + u16 (a * 256 + b)))

-- Its last loop, which adds the carries.
unfoldable pub fold_loop : ℕ → ℕ → ℕ
fold_loop zero sum = sum
fold_loop (suc rounds) sum =
    let rest = fold_loop rounds (u32 (sum % 2 ^ 16 + sum / 2 ^ 16)) in
    if sum / 2 ^ 16 == 0 then sum else rest

-- Two rounds are enough for 32 bits.
abbrev pub fold_rounds : ℕ
fold_rounds = 2

unfoldable pub checksum16 : List ℕ → ℕ
checksum16 bytes = 65535 - u16 (fold_loop fold_rounds (sum_loop bytes 0))

-- A 16-bit field as it lies in memory.
abbrev pub word16 : ℕ → List ℕ
word16 v = v % 256 ∷ v / 256 % 256 ∷ []

-- The first bytes of an array.
abbrev pub bytes4 : (ℕ → ℕ) → List ℕ
bytes4 p = p 0 ∷ p 1 ∷ p 2 ∷ p 3 ∷ []

abbrev pub bytes6 : (ℕ → ℕ) → List ℕ
bytes6 p = p 0 ∷ p 1 ∷ p 2 ∷ p 3 ∷ p 4 ∷ p 5 ∷ []

-- NET_OUR_IP
abbrev pub net_our_ip : List ℕ
net_our_ip = 10 ∷ 0 ∷ 2 ∷ 15 ∷ []

abbrev pub max_frame_size : ℕ
max_frame_size = 1518

abbrev pub icmp_payload_size : ℕ
icmp_payload_size = 32

-- eth_header_t
unfoldable pub eth_header : List ℕ → List ℕ → ℕ → List ℕ
eth_header dst src ethertype = dst ++ src ++ word16 ethertype

-- arp_packet_t, as net_arp_resolve fills it in.
unfoldable pub arp_packet : (ℕ → ℕ) → (ℕ → ℕ) → List ℕ
arp_packet our_mac ip =
    word16 (htons16 1)
    ++ word16 (htons16 0x0800)
    ++ (6 ∷ 4 ∷ [])
    ++ word16 (htons16 1)
    ++ bytes6 our_mac
    ++ net_our_ip
    ++ bytes6 (λ _. 0)
    ++ bytes4 ip

unfoldable pub arp_request : (ℕ → ℕ) → (ℕ → ℕ) → List ℕ
arp_request our_mac ip =
    eth_header (bytes6 (λ _. 0xFF)) (bytes6 our_mac) (htons16 0x0806) ++ arp_packet our_mac ip

-- ipv4_header_t, as net_ping fills it in, with its checksum field given.
unfoldable pub ipv4_header : ℕ → (ℕ → ℕ) → List ℕ
ipv4_header checksum ip =
    (0x45 ∷ 0 ∷ [])
    ++ word16 (htons16 (20 + 8 + icmp_payload_size))
    ++ word16 (htons16 1)
    ++ word16 0
    ++ (64 ∷ 1 ∷ [])
    ++ word16 checksum
    ++ net_our_ip
    ++ bytes4 ip

-- The loop that fills the payload, from byte `i` on.
unfoldable pub payload_loop : ℕ → ℕ → List ℕ
payload_loop zero i = []
payload_loop (suc rounds) i = u8 (65 + i % 26) ∷ payload_loop rounds (i + 1)

unfoldable pub payload : List ℕ
payload = payload_loop icmp_payload_size 0

-- icmp_header_t and the payload behind it.
unfoldable pub icmp_message : ℕ → ℕ → ℕ → List ℕ
icmp_message checksum identifier sequence =
    (8 ∷ 0 ∷ [])
    ++ word16 checksum
    ++ word16 (htons16 identifier)
    ++ word16 (htons16 sequence)
    ++ payload

-- The two parts of the packet once their checksums are filled in.
unfoldable pub ipv4_part : (ℕ → ℕ) → List ℕ
ipv4_part ip = ipv4_header (htons16 (checksum16 (ipv4_header 0 ip))) ip

unfoldable pub icmp_part : ℕ → ℕ → List ℕ
icmp_part identifier sequence =
    icmp_message (htons16 (checksum16 (icmp_message 0 identifier sequence))) identifier sequence

unfoldable pub ping_packet : (ℕ → ℕ) → (ℕ → ℕ) → (ℕ → ℕ) → ℕ → ℕ → List ℕ
ping_packet our_mac ip mac identifier sequence =
    eth_header (bytes6 mac) (bytes6 our_mac) (htons16 0x0800)
    ++ ipv4_part ip
    ++ icmp_part identifier sequence

-- A field of a received frame.
abbrev pub field8 : List ℕ → ℕ → ℕ
field8 frame offset = get_or frame offset 0

abbrev pub field16 : List ℕ → ℕ → ℕ
field16 frame offset = field8 frame offset + field8 frame (offset + 1) * 256

-- memcmp() == 0 of a range of a frame.
unfoldable pub same_bytes : ℕ → (ℕ → ℕ) → (ℕ → ℕ) → Bool
same_bytes zero a b = true
same_bytes (suc n) a b = same_bytes n (λ i. a (i + 1)) (λ i. b (i + 1)) && (a 0 == b 0)

-- The test of net_arp_resolve on a frame, and the address that it copies out.
unfoldable pub arp_reply : (ℕ → ℕ) → List ℕ → Option (List ℕ)
arp_reply ip frame =
    if leb 42 (length frame)
      && ((field16 frame 12 == htons16 0x0806)
          && ((field16 frame 20 == htons16 2) && same_bytes 4 (λ i. field8 frame (28 + i)) ip))
    then some (bytes6 (λ i. field8 frame (22 + i)))
    else none

-- The test of net_ping on a frame.
unfoldable pub ping_reply : (ℕ → ℕ) → ℕ → ℕ → List ℕ → Option (Unit {0})
ping_reply ip identifier sequence frame =
    if leb 74 (length frame)
      && ((field16 frame 12 == htons16 0x0800)
          && ((field8 frame 23 == 1)
              && (same_bytes 4 (λ i. field8 frame (26 + i)) ip
                  && ((field8 frame 34 == 0)
                      && ((field16 frame 38 == htons16 identifier)
                          && ((field16 frame 40 == htons16 sequence)
                              && same_bytes icmp_payload_size (λ i. field8 frame (42 + i))
                                  (λ i. get_or payload i 0)))))))
    then some tt
    else none

abbrev pub retry_count : ℕ
retry_count = 20

abbrev pub spins_per_retry : ℕ
spins_per_retry = 2000000

-- e1000_send, e1000_poll_receive, which gives the bytes that it received, and schedule.
module _ {D : Type 0} (send : List ℕ → D → D) (poll : D → List ℕ × D) (schedule : D → D) where
  -- The inner loop, up to the frame that is accepted.
  unfoldable pub spin_loop : {R : Type 0} → ℕ → (List ℕ → Option R) → D → Option R × D
  spin_loop zero accept d = (none, d)
  spin_loop (suc spins) accept d =
      let (frame, received) = poll d in
      elim (accept frame) [
        | none ↦ spin_loop spins accept (schedule received)
        | some r ↦ (some r, received)
      ]

  unfoldable pub retry_loop : {R : Type 0} → ℕ → List ℕ → (List ℕ → Option R) → D → Option R × D
  retry_loop zero request accept d = (none, d)
  retry_loop (suc retries) request accept d =
      let (answer, d') = spin_loop spins_per_retry accept (send request d) in
      elim answer [ none ↦ retry_loop retries request accept d' | some r ↦ (some r, d') ]

  -- The address, or none for a result of 0.
  unfoldable pub net_arp_resolve : (ℕ → ℕ) → (ℕ → ℕ) → D → Option (List ℕ) × D
  net_arp_resolve our_mac ip d = retry_loop retry_count (arp_request our_mac ip) (arp_reply ip) d

  unfoldable pub net_ping : (ℕ → ℕ) → (ℕ → ℕ) → (ℕ → ℕ) → ℕ → ℕ → D → Option (Unit {0}) × D
  net_ping our_mac ip mac identifier sequence d =
      retry_loop retry_count (ping_packet our_mac ip mac identifier sequence)
        (ping_reply ip identifier sequence) d
