-- ===== src/Keyboard/Queue.antt =====
-- The ring of kernel/src/keyboard.c as a queue.
use reborn_os.Prelude.{
  ℕ, zero, suc, ◌+◌, ◌-◌, ◌%◌, ◌<◌, ◌≡◌, refl, ap, true, false, Option, none, some, List, [], ◌∷◌,
  ◌++◌, ◌==◌, if◌then◌else◌, put, length, arith, Bool-cases, inl, inr, ==_ne, ==_self,
}
use reborn_os.Keyboard.Defs.{Keyboard, buffer_push, keyboard_read_char}

-- The `n` characters from index `t` on, round the ring.
unfoldable pub items : ℕ → ℕ → (ℕ → ℕ) → List ℕ
items zero t buffer = []
items (suc n) t buffer = buffer t ∷ items n ((t + 1) % 64) buffer

abbrev pub unread : Keyboard → ℕ
unread k = (k.buf_head + 64 - k.buf_tail) % 64

-- The characters that are not read yet, the oldest first.
abbrev pub contents : Keyboard → List ℕ
contents k = items (unread k) k.buf_tail k.buffer

pub record IsValid (k : Keyboard) : Type 0 where
  pub head_in_ring : k.buf_head < 64
  pub tail_in_ring : k.buf_tail < 64

length-items : (n t : ℕ) (buffer : ℕ → ℕ) → length (items n t buffer) ≡ n
unfolding items
length-items zero t buffer = refl
length-items (suc n) t buffer = ap suc (length-items n ((t + 1) % 64) buffer)

-- A character written behind the last one.
items-put :
    (n t h c : ℕ) (buffer : ℕ → ℕ)
    → n < 64
    → t < 64
    → h ≡ (t + n) % 64
    → items (suc n) t (put buffer h c) ≡ items n t buffer ++ (c ∷ [])
unfolding items
items-put zero t h c buffer l lt e = let k : h ≡ t = omega arith in rw (k, ==_self t) refl
items-put (suc n) t h c buffer l lt e =
    let ne : (t == h) ≡ false = ==_ne t h (λ k. omega arith) in
    let rest = items-put n ((t + 1) % 64) h c buffer (omega arith) (omega arith) (omega arith) in
    rw ne (ap (λ r. buffer t ∷ r) rest)

-- What a queue of at most 63 characters does.
abbrev pub enqueue : ℕ → List ℕ → List ℕ
enqueue c q = if length q == 63 then q else q ++ (c ∷ [])

abbrev pub dequeue : List ℕ → Option ℕ × List ℕ
dequeue [] = (none, [])
dequeue (c ∷ q) = (some c, q)

pushed :
    (c : ℕ) (k : Keyboard)
    → IsValid k
    → ((k.buf_head + 1) % 64 == k.buf_tail) ≡ false
    → items (((k.buf_head + 1) % 64 + 64 - k.buf_tail) % 64) k.buf_tail (put k.buffer k.buf_head c)
      ≡ contents k ++ (c ∷ [])
pushed c k v e =
    let more : ((k.buf_head + 1) % 64 + 64 - k.buf_tail) % 64 ≡ suc (unread k) = ground arith in
    rw more (
      items-put (unread k) k.buf_tail k.buf_head c k.buffer (omega arith) v.tail_in_ring
        (omega arith))

-- With the indices in the ring, the ring of the keyboard is a queue of at most 63 characters:
-- buffer_push adds a character at the end, or drops it if the queue is full, and the indices stay
-- in the ring.
pub buffer_push-enqueue :
    (c : ℕ) (k : Keyboard)
    → IsValid k
    → IsValid (buffer_push c k) × (contents (buffer_push c k) ≡ enqueue c (contents k))
unfolding buffer_push
buffer_push-enqueue c k v =
    let n = length-items (unread k) k.buf_tail k.buffer in
    elim (Bool-cases ((k.buf_head + 1) % 64 == k.buf_tail)) [
      | inl e ↦
          (let full : (length (contents k) == 63) ≡ true = ground (arith, n) in
            rw (e, full) (v, refl))
      | inr e ↦
          (let room : (length (contents k) == 63) ≡ false = ground (arith, n) in
            rw (e, room)
              (
                record { head_in_ring = omega arith; tail_in_ring = v.tail_in_ring },
                pushed c k v e,
              ))
    ]

contents-empty : (k : Keyboard) → IsValid k → (k.buf_tail == k.buf_head) ≡ true → contents k ≡ []
unfolding items
contents-empty k v e = let z : unread k ≡ 0 = ground arith in rw z refl

contents-next :
    (k : Keyboard)
    → IsValid k
    → (k.buf_tail == k.buf_head) ≡ false
    → contents k ≡ k.buffer k.buf_tail ∷ contents (record k { buf_tail = (k.buf_tail + 1) % 64 })
unfolding items
contents-next k v e =
    let s : unread k ≡ suc ((k.buf_head + 64 - (k.buf_tail + 1) % 64) % 64) = ground arith in
    rw s refl

-- With the indices in the ring, keyboard_read_char takes the oldest character of the queue, or
-- returns -1 if there is none, and leaves the rest.
pub keyboard_read_char-dequeue :
    (k : Keyboard)
    → IsValid k
    → IsValid (keyboard_read_char k).1
      × (((keyboard_read_char k).0, contents (keyboard_read_char k).1) ≡ dequeue (contents k))
unfolding keyboard_read_char
keyboard_read_char-dequeue k v = elim (Bool-cases (k.buf_tail == k.buf_head)) [
  | inl e ↦ rw e (v, rw (contents-empty k v e) refl)
  | inr e ↦ rw e (
    record { head_in_ring = v.head_in_ring; tail_in_ring = omega arith },
    rw (contents-next k v e) refl,
  )
]
