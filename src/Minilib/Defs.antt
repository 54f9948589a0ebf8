-- ===== src/Minilib/Defs.antt =====
-- The functions of common/src/minilib.c over memory as a map from an address to a byte. A pointer is
-- an address, and an object does not wrap around the end of memory. An `int` is its 32 bits.
use reborn_os.Prelude.{
  ℕ, zero, suc, ◌+◌, ◌-◌, ◌^◌, not, ◌&&◌, Option, none, some, ltb, ◌==◌, if◌then◌else◌, put, u8,
  u32,
}

-- The loop of memset from round `i` on.
unfoldable pub set_loop : ℕ → ℕ → (ℕ → ℕ) → ℕ → ℕ → ℕ → ℕ
set_loop zero i m dst c = m
set_loop (suc rounds) i m dst c = set_loop rounds (i + 1) (put m (dst + i) (u8 c)) dst c

unfoldable pub memset : (ℕ → ℕ) → ℕ → ℕ → ℕ → ℕ → ℕ
memset m dst c n = set_loop n 0 m dst c

-- The loop that copies upwards, from round `i` on.
unfoldable pub up_loop : ℕ → ℕ → (ℕ → ℕ) → ℕ → ℕ → ℕ → ℕ
up_loop zero i m dst src = m
up_loop (suc rounds) i m dst src = up_loop rounds (i + 1) (put m (dst + i) (m (src + i))) dst src

-- The loop of memmove that copies downwards: `i` is the number of bytes left.
unfoldable pub down_loop : ℕ → (ℕ → ℕ) → ℕ → ℕ → ℕ → ℕ
down_loop zero m dst src = m
down_loop (suc i) m dst src = down_loop i (put m (dst + i) (m (src + i))) dst src

unfoldable pub memcpy : (ℕ → ℕ) → ℕ → ℕ → ℕ → ℕ → ℕ
memcpy m dst src n = up_loop n 0 m dst src

unfoldable pub memmove : (ℕ → ℕ) → ℕ → ℕ → ℕ → ℕ → ℕ
memmove m dst src n = if ltb dst src then up_loop n 0 m dst src else down_loop n m dst src

-- pa[i] - pb[i] as an `int`, from round `i` on.
unfoldable pub cmp_loop : ℕ → ℕ → (ℕ → ℕ) → ℕ → ℕ → ℕ
cmp_loop zero i m a b = 0
cmp_loop (suc rounds) i m a b =
    let rest = cmp_loop rounds (i + 1) m a b in
    if m (a + i) == m (b + i) then rest else u32 (m (a + i) + 2 ^ 32 - m (b + i))

unfoldable pub memcmp : (ℕ → ℕ) → ℕ → ℕ → ℕ → ℕ
memcmp m a b n = cmp_loop n 0 m a b

-- The loops over strings have no bound in the source; here they end without a result when `rounds`
-- runs out.
unfoldable pub len_loop : ℕ → (ℕ → ℕ) → ℕ → ℕ → Option ℕ
len_loop zero m s n = none
len_loop (suc rounds) m s n =
    let rest = len_loop rounds m s (n + 1) in if m (s + n) == 0 then some n else rest

unfoldable pub strlen : ℕ → (ℕ → ℕ) → ℕ → Option ℕ
strlen rounds m s = len_loop rounds m s 0

unfoldable pub strcmp : ℕ → (ℕ → ℕ) → ℕ → ℕ → Option ℕ
strcmp zero m a b = none
strcmp (suc rounds) m a b =
    let rest = strcmp rounds m (a + 1) (b + 1) in
    if not (m a == 0) && (m a == m b) then rest else some (u32 (m a + 2 ^ 32 - m b))
