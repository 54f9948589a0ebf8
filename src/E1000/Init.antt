-- ===== src/E1000/Init.antt =====
-- The receive ring that e1000_init of kernel/src/e1000.c sets up.
use reborn_os.Prelude.{
  ℕ, zero, suc, ◌+◌, ◌*◌, ◌%◌, ◌≤◌, ◌<◌, ◌≡◌, ◌≢◌, refl, sym, ◌⊎◌, inl, inr, [], true, false, ◌||◌,
  ◌==◌, put, ltb, arith, Bool-cases, ==_self, subst,
}
use reborn_os.Prelude.{Outcome, ok, ◌>>=◌, >>=-eq-ok, ok-injective}
use reborn_os.Pmm.{Pmm, pmm_alloc_page, used}
use reborn_os.Pmm.Valid.{ZeroReserved}
use reborn_os.Pmm.Alloc.{Allocated, granted, exhausted, pmm_alloc_page-Allocated}
use reborn_os.Pmm.Valid
use reborn_os.E1000.Receive.{IsValid, contents, frames}
use reborn_os.E1000.Defs.{
  Nic, RxDesc, TxDesc, zero_rx, zero_tx, Cause, rx_loop, tx_loop, init_rings,
}

-- The first `n` descriptors point to pages of their own, and no descriptor is marked as done.
pub record Filled (n : ℕ) (ring : ℕ → RxDesc) (p : Pmm) : Type 0 where
  pub pmm_valid : Valid.IsValid p
  pub zero_kept : ZeroReserved p
  pub page : (j : ℕ) → j < n → (b : ℕ) × ((ring j).addr ≡ b * 4096) × (used p b ≡ true)
  pub distinct : (j k : ℕ) → j < n → k < n → (j == k) ≡ false → (ring j).addr ≢ (ring k).addr
  pub clear : (j : ℕ) → (ring j).status ≡ 0

-- A page that is free is not one of a slot.
page_fresh :
    (n : ℕ) (ring : ℕ → RxDesc) (p : Pmm) (b : ℕ)
    → Filled n ring p
    → used p b ≡ false
    → (j : ℕ) → j < n
    → (ring j).addr ≢ b * 4096
page_fresh n ring p b f free j l e =
    let (a, at, taken) = f.page j l in
    let same : a ≡ b = omega arith in
    let held : used p b ≡ true = subst (λ k. used p k ≡ true) same taken in cc

Filled-next :
    (n : ℕ) (ring : ℕ → RxDesc) (p : Pmm) (r : ℕ × Pmm)
    → Filled n ring p
    → Allocated p r
    → (r.0 == 0) ≡ false
    → Filled (n + 1) (put ring n (record (ring n) { addr = r.0; status = 0 })) r.1
Filled-next n ring p r f (granted {t} b (l, ne, free) u c (v, z, same)) h = record {
  pmm_valid = v;
  zero_kept = z;
  page = λ j l. elim (Bool-cases (j == n)) [
    | inl e ↦ rw e (b, refl, rw (u b, ==_self b) refl)
    | inr e ↦
        (let (a, at, taken) = f.page j (ground arith) in rw e (a, at, ground (arith, u a, taken)))
  ];
  distinct = λ j k l m ne.
      let fresh = page_fresh n ring p b f free in
      elim (Bool-cases (j == n)) [
        | inl e ↦
            (let other : (k == n) ≡ false = ground arith in
              rw (e, other) λ same. fresh k (ground arith) (sym same))
        | inr e ↦ elim (Bool-cases (k == n)) [
          | inl o ↦ rw (e, o) λ same. fresh j (ground arith) same
          | inr o ↦ rw (e, o) (f.distinct j k (ground arith) (ground arith) ne)
        ]
      ];
  clear = λ j. elim (Bool-cases (j == n)) [ inl e ↦ rw e refl | inr e ↦ rw e (f.clear j) ];
}
Filled-next n ring p r f (exhausted all) h = cc

rx_loop-Filled :
    (rounds n : ℕ) (ring : ℕ → RxDesc) (p : Pmm) (r : (ℕ → RxDesc) × Pmm)
    → Filled n ring p
    → rx_loop rounds n ring p ≡ ok r
    → Filled (n + rounds) r.0 r.1
unfolding rx_loop
rx_loop-Filled zero n ring p r f e =
    let sum : n ≡ n + 0 = omega arith in
    subst (λ x. Filled (n + 0) x.0 x.1) (ok-injective e) (subst (λ k. Filled k ring p) sum f)
rx_loop-Filled (suc rounds) n ring p r f e = elim (Bool-cases ((pmm_alloc_page p).0 == 0)) [
  | inl z ↦ (let stuck = rw z at e in cc)
  | inr z ↦
      (let got = rw z at e in
        let next =
          Filled-next n ring p (pmm_alloc_page p) f
            (pmm_alloc_page-Allocated p f.pmm_valid f.zero_kept) z in
        let sum : n + 1 + rounds ≡ n + suc rounds = omega arith in
        subst (λ k. Filled k r.0 r.1) sum
          (rx_loop-Filled rounds (n + 1)
            (put ring n (record (ring n) { addr = (pmm_alloc_page p).0; status = 0 }))
            (pmm_alloc_page p).1 r next got))
]

Allocated-kept :
    {p : Pmm} {r : ℕ × Pmm}
    → Valid.IsValid p
    → ZeroReserved p
    → Allocated p r
    → Valid.IsValid r.1 × ZeroReserved r.1
Allocated-kept v z (granted b fresh u c (v', z', same)) = (v', z')
Allocated-kept v z (exhausted all) = (v, z)

-- Each slot has a page of its own.
abbrev pub OwnPages : Nic → Type 0
OwnPages s =
    (i j : ℕ)
    → i < 8
    → j < 8
    → (i == j) ≡ false
    → ((s.rx_ring i).addr + 4096 ≤ (s.rx_ring j).addr)
      ⊎ ((s.rx_ring j).addr + 4096 ≤ (s.rx_ring i).addr)

Filled-OwnPages : (s : Nic) (p : Pmm) → Filled 8 s.rx_ring p → OwnPages s
Filled-OwnPages s p f i j l m ne =
    let (a, at, held) = f.page i l in
    let (b, bt, held') = f.page j m in
    let differ = f.distinct i j l m ne in
    elim (Bool-cases (ltb a b)) [
      | inl e ↦ inl (ground arith)
      | inr e ↦ (let apart : a ≢ b = λ same. differ (omega arith) in inr (ground arith))
    ]

-- The state that init_rings ends in, from its rings.
abbrev started : (ℕ → ℕ) → (ℕ → RxDesc) → (ℕ → TxDesc) → Nic
started mem rx_ring tx_ring = record {
  rx_ring = rx_ring;
  tx_ring = tx_ring;
  rx_tail = 7;
  tx_tail = 0;
  rdh = 0;
  rdt = 7;
  tdt = 0;
  mem = mem;
}

abbrev with_tx : (ℕ → ℕ) → (ℕ → RxDesc) × Pmm → Outcome Cause (Nic × Pmm)
with_tx mem x = tx_loop 8 0 (λ i. zero_tx) x.1 >>= λ y. ok (started mem x.0 y.0, y.1)

Filled-none : (p : Pmm) → Valid.IsValid p → ZeroReserved p → Filled 0 (λ i. zero_rx) p
Filled-none p v z = record {
  pmm_valid = v;
  zero_kept = z;
  page = λ j l. absurd (omega arith);
  distinct = λ j k l. absurd (omega arith);
  clear = λ j. refl;
}

started-IsValid :
    (max_len : ℕ) (mem : ℕ → ℕ) (rx_ring : ℕ → RxDesc) (tx_ring : ℕ → TxDesc)
    → ((j : ℕ) → (rx_ring j).status ≡ 0)
    → IsValid max_len (started mem rx_ring tx_ring)
started-IsValid max_len mem rx_ring tx_ring clear = record {
  tail_in_ring = omega arith;
  head_in_ring = omega arith;
  told = refl;
  done = λ i l. absurd (omega arith);
  empty = λ i l u. rw (clear ((0 + i) % 8)) refl;
  fits = λ i l. absurd (omega arith);
}

-- With a sound page allocator, when e1000_init does not halt for want of memory, its receive ring
-- is empty and ready for polls, with each slot on a page of its own.
pub init_rings-Ready :
    (max_len : ℕ) (mem : ℕ → ℕ) (p : Pmm) (r : Nic × Pmm)
    → Valid.IsValid p
    → ZeroReserved p
    → init_rings mem p ≡ ok r
    → IsValid max_len r.0 × ((contents r.0 ≡ []) × OwnPages r.0)
unfolding init_rings frames
init_rings-Ready max_len mem p r v z e =
    let (v₁, z₁) = Allocated-kept v z (pmm_alloc_page-Allocated p v z) in
    let p₁ = (pmm_alloc_page p).1 in
    let (v₂, z₂) = Allocated-kept v₁ z₁ (pmm_alloc_page-Allocated p₁ v₁ z₁) in
    let p₂ = (pmm_alloc_page p₁).1 in
    elim (Bool-cases (((pmm_alloc_page p).0 == 0) || ((pmm_alloc_page p₁).0 == 0))) [
      | inl h ↦ (let stuck = rw h at e in cc)
      | inr h ↦
          (let got = rw h at e in
            let (x, loop, rest) = >>=-eq-ok (rx_loop 8 0 (λ i. zero_rx) p₂) (with_tx mem) got in
            let (y, loop', last) =
              >>=-eq-ok (tx_loop 8 0 (λ i. zero_tx) x.1) (λ y. ok (started mem x.0 y.0, y.1))
                rest in
            let filled = rx_loop-Filled 8 0 (λ i. zero_rx) p₂ x (Filled-none p₂ v₂ z₂) loop in
            subst (λ r. IsValid max_len r.0 × ((contents r.0 ≡ []) × OwnPages r.0))
              (ok-injective last)
              (
                started-IsValid max_len mem x.0 y.0 filled.clear,
                (refl, Filled-OwnPages (started mem x.0 y.0) x.1 filled),
              ))
    ]
