-- ===== src/E1000/Fifo.antt =====
-- The frames that kernel/src/e1000.c takes from the card, over any run.
use mathlib.Core.List.{append-nil, append_assoc}
use reborn_os.Prelude.{
  min, map, ℕ, ◌≤◌, ◌<◌, ◌≡◌, refl, sym, ap, ◌∙◌, List, [], ◌∷◌, ◌++◌, length, false, ◌==◌,
  if◌then◌else◌, arith,
}
use reborn_os.E1000.Defs.{Nic, e1000_poll_receive}
use reborn_os.E1000.Receive.{first, bytes, contents, IsValid, IsApart}
use reborn_os.E1000.Poll.{Polled, nothing, oldest, e1000_poll_receive-Polled}
use reborn_os.E1000.Card.{
  Delivered, Elsewhere, delivered-IsValid, delivered-IsApart, delivered-contents, elsewhere-IsValid,
  elsewhere-IsApart, elsewhere-contents,
}

-- What the caller of a poll sees: no frame, or the bytes in its buffer.
abbrev pub returned : ℕ → ℕ → ℕ × Nic → List (List ℕ)
returned buf max_len (len, s) = if len == 0 then [] else bytes (min len max_len) buf s.mem ∷ []

-- A run from a state: the frames that the card stores in it, and those that polls return. The card
-- stores a frame, of at most the 2048 bytes of a buffer, only if the head has not met the tail.
pub data Run (buf max_len : ℕ) : Nic → List (List ℕ) → List (List ℕ) → Nic → Type 0 where
  stop : {s : Nic} → Run buf max_len s [] [] s
  receives :
      {s t u : Nic} {stored polled : List (List ℕ)} (frame : List ℕ)
      → (s.rdh == s.rdt) ≡ false
      → 0 < length frame
      → length frame ≤ 2048
      → Delivered frame s t
      → Run buf max_len t stored polled u
      → Run buf max_len s (frame ∷ stored) polled u
  polls :
      {s u : Nic} {stored polled : List (List ℕ)}
      → Run buf max_len (e1000_poll_receive buf max_len s).1 stored polled u
      → Run buf max_len s stored
          (returned buf max_len (e1000_poll_receive buf max_len s) ++ polled)
          u
  other :
      {s t u : Nic} {stored polled : List (List ℕ)}
      → Elsewhere s t
      → Run buf max_len t stored polled u
      → Run buf max_len s stored polled u

Polled-contents :
    (buf max_len : ℕ) (s : Nic) (q : List (List ℕ)) (r : ℕ × Nic)
    → IsValid 2048 s
    → IsApart buf max_len s
    → map (first max_len) (contents s) ≡ q
    → Polled buf max_len s q r
    → IsValid 2048 r.1
      × (IsApart buf max_len r.1
          × (q ≡ returned buf max_len r ++ map (first max_len) (contents r.1)))
Polled-contents buf max_len s q r valid apart e nothing = (valid, (apart, sym e))
Polled-contents buf max_len s q r valid apart e (oldest len s' some_bytes valid' apart') =
    let test : (len == 0) ≡ false = ground arith in rw test (valid', (apart', refl))

map-++ : (f : List ℕ → List ℕ) (a b : List (List ℕ)) → map f (a ++ b) ≡ map f a ++ map f b
map-++ f [] b = refl
map-++ f (x ∷ a) b = ap (λ r. f x ∷ r) (map-++ f a b)

-- With a buffer of max_len bytes apart from the card's, in any run of the driver, the card and the
-- rest of the system, the polls return the frames that waited and those that the card stored, each
-- once and in the order of arrival, whole or, where a frame is longer, its first max_len bytes;
-- what is not returned yet waits in the ring.
pub receive_in_order :
    {buf max_len : ℕ} {s u : Nic} {stored polled : List (List ℕ)}
    → IsValid 2048 s
    → IsApart buf max_len s
    → Run buf max_len s stored polled u
    → map (first max_len) (contents s ++ stored) ≡ polled ++ map (first max_len) (contents u)
receive_in_order {max_len = max_len} {u = u} valid apart stop =
    ap (map (first max_len)) (append-nil (contents u))
receive_in_order {buf} {max_len} {s} valid apart
      (receives {t = t} {u} {stored} {polled} frame room some_bytes fit card run) =
    let valid' = delivered-IsValid buf max_len frame s t valid apart card room fit some_bytes in
    let apart' = delivered-IsApart buf max_len frame s t valid apart card room fit in
    ap (map (first max_len)) (
      sym (append_assoc (contents s) (frame ∷ []) stored)
      ∙ ap (λ q. q ++ stored)
          (sym (delivered-contents buf max_len frame s t valid apart card room fit)))
    ∙ receive_in_order valid' apart' run
receive_in_order {buf} {max_len} {s} valid apart (polls {u = u} {stored} {polled} run) =
    let r = e1000_poll_receive buf max_len s in
    let cut = map (first max_len) in
    let (valid', rest) =
      Polled-contents buf max_len s (cut (contents s)) r valid apart refl
        (e1000_poll_receive-Polled buf max_len s valid apart) in
    let (apart', same) = rest in
    let out = returned buf max_len r in
    map-++ (first max_len) (contents s) stored
    ∙ (ap (λ q. q ++ cut stored) same
        ∙ (append_assoc out (cut (contents r.1)) (cut stored)
            ∙ (ap (λ q. out ++ q)
                  (sym (map-++ (first max_len) (contents r.1) stored)
                    ∙ receive_in_order valid' apart' run)
                ∙ sym (append_assoc out polled (cut (contents u))))))
receive_in_order {buf} {max_len} {s} valid apart (other {t = t} {u} {stored} {polled} step run) =
    let valid' = elsewhere-IsValid buf max_len s t valid apart step in
    let apart' = elsewhere-IsApart buf max_len s t valid apart step in
    ap (λ q. map (first max_len) (q ++ stored))
      (sym (elsewhere-contents buf max_len s t valid apart step))
    ∙ receive_in_order valid' apart' run
