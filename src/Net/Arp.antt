-- ===== src/Net/Arp.antt =====
-- net_arp_resolve of kernel/src/net.c: what it asks and what it takes for the answer.
use reborn_os.Prelude.{
  Bool, ℕ, zero, suc, ◌+◌, ◌*◌, ◌≤◌, ◌<◌, ◌≡◌, refl, sym, ◌∙◌, true, ◌&&◌, none, some, List, [],
  ◌∷◌, length, get_or, leb, ◌==◌, if◌then◌else◌, Bool-cases, inl, inr, arith, eq_of_some, ◌↔◌,
}
use reborn_os.Net.Defs.{
  same_bytes, arp_reply, arp_request, arp_packet, eth_header, htons16, net_arp_resolve,
}
use reborn_os.Net.Polling.{Asked, retry_loop-Asked, Asked-described}

abbrev byte : List ℕ → ℕ → ℕ
byte frame i = get_or frame i 0

-- A frame is an ARP reply from `ip`, whose sender has the hardware address `mac`: the two words are
-- 0x0806 and 2 with their high byte first.
pub record IsArpReply (ip : ℕ → ℕ) (frame mac : List ℕ) : Type 0 where
  pub whole : 42 ≤ length frame
  pub is_arp : byte frame 12 + byte frame 13 * 256 ≡ 0x0608
  pub is_reply : byte frame 20 + byte frame 21 * 256 ≡ 0x0200
  pub sender_ip : (i : ℕ) → i < 4 → byte frame (28 + i) ≡ ip i
  pub sender_mac :
      mac
      ≡ byte frame 22
        ∷ byte frame 23
        ∷ byte frame 24
        ∷ byte frame 25
        ∷ byte frame 26
        ∷ byte frame 27
        ∷ []

abbrev pub IsOther : (ℕ → ℕ) → List ℕ → Type 0
IsOther ip frame = (mac : List ℕ) → ¬ IsArpReply ip frame mac

-- A request to all for the hardware address of `ip`, byte by byte.
abbrev pub request_for : (ℕ → ℕ) → (ℕ → ℕ) → List ℕ
request_for our ip =
    255
    ∷ 255
    ∷ 255
    ∷ 255
    ∷ 255
    ∷ 255
    ∷ our 0
    ∷ our 1
    ∷ our 2
    ∷ our 3
    ∷ our 4
    ∷ our 5
    ∷ 8
    ∷ 6
    ∷ 0
    ∷ 1
    ∷ 8
    ∷ 0
    ∷ 6
    ∷ 4
    ∷ 0
    ∷ 1
    ∷ our 0
    ∷ our 1
    ∷ our 2
    ∷ our 3
    ∷ our 4
    ∷ our 5
    ∷ 10
    ∷ 0
    ∷ 2
    ∷ 15
    ∷ 0
    ∷ 0
    ∷ 0
    ∷ 0
    ∷ 0
    ∷ 0
    ∷ ip 0
    ∷ ip 1
    ∷ ip 2
    ∷ ip 3
    ∷ []

request_for-eq : (our ip : ℕ → ℕ) → arp_request our ip ≡ request_for our ip
unfolding arp_request arp_packet eth_header htons16
request_for-eq our ip = refl

same_bytes_iff : (n : ℕ) (a b : ℕ → ℕ) → (same_bytes n a b ≡ true) ↔ ((i : ℕ) → i < n → a i ≡ b i)
unfolding same_bytes
same_bytes_iff zero a b = (λ e i l. absurd (omega arith), λ h. refl)
same_bytes_iff (suc n) a b =
    let (to, from) = same_bytes_iff n (λ i. a (i + 1)) (λ i. b (i + 1)) in
    (
      (λ e. bytes_of n a b (ground arith) (to (ground arith))),
      λ h.
          let first = h 0 (omega arith) in
          let rest = from (λ i l. h (i + 1) (omega arith)) in ground (arith, first, rest),
    )
  where
    bytes_of :
        (n : ℕ) (a b : ℕ → ℕ)
        → a 0 ≡ b 0
        → ((i : ℕ) → i < n → a (i + 1) ≡ b (i + 1))
        → (i : ℕ) → i < suc n
        → a i ≡ b i
    bytes_of n a b z h zero l = z
    bytes_of n a b z h (suc i) l =
        let e : i + 1 ≡ suc i = omega arith in rw e at (h i (omega arith))

-- The test of the code, with its constants written out.
abbrev passes : (ℕ → ℕ) → List ℕ → Bool
passes ip frame =
    leb 42 (length frame)
    && ((byte frame 12 + byte frame 13 * 256 == 0x0608)
        && ((byte frame 20 + byte frame 21 * 256 == 0x0200)
            && same_bytes 4 (λ i. byte frame (28 + i)) ip))

arp_reply-passes :
    (ip : ℕ → ℕ) (frame : List ℕ)
    → arp_reply ip frame ≡ (
        if passes ip frame
        then some (
            byte frame 22
            ∷ byte frame 23
            ∷ byte frame 24
            ∷ byte frame 25
            ∷ byte frame 26
            ∷ byte frame 27
            ∷ [])
        else none)
unfolding arp_reply htons16
arp_reply-passes ip frame = refl

arp_reply-IsArpReply :
    (ip : ℕ → ℕ) (frame mac : List ℕ) → arp_reply ip frame ≡ some mac → IsArpReply ip frame mac
arp_reply-IsArpReply ip frame mac e = elim (Bool-cases (passes ip frame)) [
  | inr bad ↦ (let f = sym (arp_reply-passes ip frame) ∙ e in let g = rw bad at f in cc)
  | inl good ↦
      (let f = sym (arp_reply-passes ip frame) ∙ e in
        let g = rw good at f in
        let same : same_bytes 4 (λ i. byte frame (28 + i)) ip ≡ true = ground arith in
        record {
          whole = ground arith;
          is_arp = ground arith;
          is_reply = ground arith;
          sender_ip = (same_bytes_iff 4 (λ i. byte frame (28 + i)) ip).0 same;
          sender_mac = sym (eq_of_some g);
        })
]

arp_reply-IsOther : (ip : ℕ → ℕ) (frame : List ℕ) → arp_reply ip frame ≡ none → IsOther ip frame
arp_reply-IsOther ip frame e mac r =
    let same = (same_bytes_iff 4 (λ i. byte frame (28 + i)) ip).1 r.sender_ip in
    let w = r.whole in
    let a = r.is_arp in
    let b = r.is_reply in
    let good : passes ip frame ≡ true = ground arith in
    let f = sym (arp_reply-passes ip frame) ∙ e in let g = rw good at f in cc

module _ {D : Type 0} (send : List ℕ → D → D) (poll : D → List ℕ × D) (schedule : D → D) where
  -- net_arp_resolve sends up to 20 ARP requests to all for the address of ip, and polls 2000000
  -- times after each. It gives the sender's hardware address of the first polled frame that is an
  -- ARP reply from ip, and passes over every earlier frame; it gives up, with 0, after the 20
  -- requests if no polled frame is one.
  pub net_arp_resolve-Asked :
      (our_mac ip : ℕ → ℕ) (d : D)
      → let (o, d') = net_arp_resolve send poll schedule our_mac ip d in
        Asked send poll schedule
          (request_for our_mac ip)
          (λ frame mac. IsArpReply ip frame mac)
          (IsOther ip)
          20
          d
          o
          d'
  unfolding net_arp_resolve
  net_arp_resolve-Asked our_mac ip d = rw (← request_for-eq our_mac ip) (
      Asked-described send poll schedule (arp_request our_mac ip) (arp_reply ip)
        (arp_reply-IsArpReply ip) (arp_reply-IsOther ip)
        (retry_loop-Asked send poll schedule (arp_request our_mac ip) (arp_reply ip) 20 d))
