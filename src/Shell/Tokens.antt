-- ===== src/Shell/Tokens.antt =====
-- The words of a line in userland/shell.c.
use reborn_os.Prelude.{
  ℕ, zero, suc, ◌+◌, ◌-◌, ◌≤◌, ◌≡◌, ◌≢◌, refl, sym, ap, ◌∙◌, true, false, List, [], ◌∷◌, ◌++◌,
  length, ltb, arith, ==_ne,
}
use mathlib.Core.List.{append-nil, append_assoc}
use reborn_os.Shell.Defs.{
  space, max_args, iobuf_size, skip_spaces, split_word, token_loop, tokenize, append_loop,
  join_loop, join_words,
}

-- A word without a space.
abbrev pub IsPlain : List ℕ → Type 0
IsPlain [] = Unit
IsPlain (c ∷ s) = (c ≢ space) × IsPlain s

-- Words that are not empty and have no space.
abbrev pub AreWords : List (List ℕ) → Type 0
AreWords [] = Unit
AreWords (w ∷ ws) = (w ≢ []) × IsPlain w × AreWords ws

-- The words with one space between two.
abbrev pub spaced : List (List ℕ) → List ℕ
spaced [] = []
spaced (w ∷ []) = w
spaced (w ∷ v ∷ ws) = w ++ (space ∷ spaced (v ∷ ws))

split_word_last : (w : List ℕ) → IsPlain w → split_word w ≡ (w, [])
unfolding split_word
split_word_last [] p = refl
split_word_last (c ∷ w) p = rw (==_ne c space p.0, split_word_last w p.1) refl

split_word_more : (w rest : List ℕ) → IsPlain w → split_word (w ++ (space ∷ rest)) ≡ (w, rest)
unfolding split_word
split_word_more [] rest p = refl
split_word_more (c ∷ w) rest p = rw (==_ne c space p.0, split_word_more w rest p.1) refl

-- A round of the loop on a line that starts with a word.
token_loop_word :
    (room c : ℕ) (p word rest : List ℕ)
    → c ≢ space
    → split_word (c ∷ p) ≡ (word, rest)
    → token_loop (suc room) (c ∷ p) ≡ word ∷ token_loop room rest
unfolding token_loop skip_spaces
token_loop_word room c p word rest ne split =
    rw (==_ne c space ne, token_loop, skip_spaces)
      (ap (λ (t : List ℕ × List ℕ). t.0 ∷ token_loop room t.1) split)

token_loop-spaced :
    (ws : List (List ℕ)) (room : ℕ)
    → AreWords ws
    → length ws ≤ room
    → token_loop room (spaced ws) ≡ ws
unfolding token_loop skip_spaces
token_loop-spaced [] zero a l = refl
token_loop-spaced [] (suc room) a l = refl
token_loop-spaced (w ∷ ws) zero a l = absurd (omega arith)
token_loop-spaced ([] ∷ ws) (suc room) a l = absurd (a.0 refl)
token_loop-spaced ((c ∷ w) ∷ []) (suc room) a l =
    token_loop_word room c w (c ∷ w) [] a.1.0 (split_word_last (c ∷ w) a.1)
    ∙ ap (λ t. (c ∷ w) ∷ t) (token_loop-spaced [] room tt (omega arith))
token_loop-spaced ((c ∷ w) ∷ v ∷ ws) (suc room) a l =
    token_loop_word room c (w ++ (space ∷ spaced (v ∷ ws))) (c ∷ w) (spaced (v ∷ ws)) a.1.0
      (split_word_more (c ∷ w) (spaced (v ∷ ws)) a.1)
    ∙ ap (λ t. (c ∷ w) ∷ t) (token_loop-spaced (v ∷ ws) room a.2 (omega arith))

length-++ : (xs ys : List ℕ) → length (xs ++ ys) ≡ length xs + length ys
length-++ [] ys = omega arith
length-++ (x ∷ xs) ys = omega (arith, length-++ xs ys)

append_loop_fits : (s out : List ℕ) → length out + length s ≤ 511 → append_loop s out ≡ out ++ s
unfolding append_loop
append_loop_fits [] out h = sym (append-nil out)
append_loop_fits (c ∷ s) out h =
    let room : ltb (length out) 511 ≡ true = ground arith in
    rw (room, append_loop)
      (append_loop_fits s (out ++ (c ∷ [])) (omega (arith, length-++ out (c ∷ [])))
        ∙ append_assoc out (c ∷ []) s)

-- What the loop adds behind words that it has joined already.
abbrev tail_of : List (List ℕ) → List ℕ
tail_of [] = []
tail_of (w ∷ ws) = space ∷ (w ++ tail_of ws)

spaced-tail_of : (w : List ℕ) (ws : List (List ℕ)) → spaced (w ∷ ws) ≡ w ++ tail_of ws
spaced-tail_of w [] = sym (append-nil w)
spaced-tail_of w (v ∷ ws) = ap (λ t. w ++ (space ∷ t)) (spaced-tail_of v ws)

join_loop_fits :
    (ws : List (List ℕ)) (out : List ℕ)
    → length out + length (tail_of ws) ≤ 511
    → join_loop false ws out ≡ out ++ tail_of ws
unfolding join_loop
join_loop_fits [] out h = sym (append-nil out)
join_loop_fits (w ∷ ws) out h =
    let sizes = length-++ w (tail_of ws) in
    let room : ltb (length out) 511 ≡ true = ground (arith, sizes) in
    let added =
      append_loop_fits w (out ++ (space ∷ [])) (omega (arith, length-++ out (space ∷ []), sizes)) in
    rw (room, join_loop, added)
      (join_loop_fits ws ((out ++ (space ∷ [])) ++ w)
          (omega (arith, length-++ (out ++ (space ∷ [])) w, length-++ out (space ∷ []), sizes))
        ∙ append_assoc (out ++ (space ∷ [])) w (tail_of ws)
        ∙ append_assoc out (space ∷ []) (w ++ tail_of ws))

join_words-spaced :
    (w : List ℕ) (ws : List (List ℕ))
    → length (spaced (w ∷ ws)) ≤ 511
    → join_words (w ∷ ws) ≡ spaced (w ∷ ws)
unfolding join_words join_loop
join_words-spaced w ws h =
    let size = ap length (spaced-tail_of w ws) in
    let sizes = length-++ w (tail_of ws) in
    let added = append_loop_fits w [] (omega (arith, size, sizes)) in
    rw (added, join_loop)
      (join_loop_fits ws w (omega (arith, size, sizes)) ∙ sym (spaced-tail_of w ws))

-- What the write command stores for at most 16 words that are not empty and have no space, and
-- that take at most 511 characters with one space between two, reads back as these words when it
-- is split as a command line.
pub tokenize-join_words :
    (w : List ℕ) (ws : List (List ℕ))
    → AreWords (w ∷ ws)
    → length (w ∷ ws) ≤ max_args
    → length (spaced (w ∷ ws)) ≤ iobuf_size - 1
    → tokenize (join_words (w ∷ ws)) ≡ w ∷ ws
unfolding tokenize
tokenize-join_words w ws a few short =
    ap (token_loop max_args) (join_words-spaced w ws short) ∙ token_loop-spaced (w ∷ ws) 16 a few
