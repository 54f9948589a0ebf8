-- ===== src/Mouse/Defs.antt =====
-- The state of kernel/src/mouse.c and its interrupt handler, once it has read the byte.
use reborn_os.Prelude.{
  ℕ, ◌+◌, ◌-◌, ◌/◌, ◌%◌, ◌^◌, Bool, ◌||◌, ◌&&◌, not, ltb, leb, ◌==◌, if◌then◌else◌, put, u32,
}

-- The static variables; a coordinate is an `int32_t`, kept modulo 2^32.
pub record Mouse : Type 0 where
  pub x : ℕ
  pub y : ℕ
  pub buttons : ℕ
  pub packet : ℕ → ℕ
  pub packet_index : ℕ

-- `v < 0` for an `int32_t`.
abbrev pub is_negative : ℕ → Bool
is_negative v = leb (2 ^ 31) v

-- `a >= b` for an `int32_t` `a` that is not negative and `(int32_t)b`.
abbrev pub reaches : ℕ → ℕ → Bool
reaches a b = is_negative b || leb b a

-- A displacement of nine bits, its sign in the flags.
abbrev pub displacement : Bool → ℕ → ℕ
displacement sign d = if sign then u32 (d + 2 ^ 32 - 256) else d

abbrev pub bit : ℕ → ℕ → Bool
bit flags k = (flags / 2 ^ k) % 2 == 1

-- `if (v < 0) v = 0; if (size > 0 && v >= (int32_t)size) v = (int32_t)size - 1;`
abbrev pub clamp : ℕ → ℕ → ℕ
clamp size v =
    let low = if is_negative v then 0 else v in
    if ltb 0 size && reaches low size then u32 (size + 2 ^ 32 - 1) else low

-- What a whole packet does, on a screen of `width` by `height`.
unfoldable pub apply_packet : ℕ → ℕ → Mouse → Mouse
apply_packet width height m =
    let flags = m.packet 0 in
    let dx = displacement (bit flags 4) (m.packet 1) in
    let dy = displacement (bit flags 5) (m.packet 2) in
    if not (bit flags 3) then m else record m {
      buttons = flags % 8;
      x = clamp width (u32 (m.x + dx));
      y = clamp height (u32 (m.y + 2 ^ 32 - dy));
    }

unfoldable pub mouse_irq_handler : ℕ → ℕ → ℕ → Mouse → Mouse
mouse_irq_handler width height byte m =
    let stored = record m {
      packet = put m.packet m.packet_index byte;
      packet_index = m.packet_index + 1;
    } in
    if ltb stored.packet_index 3
    then stored
    else apply_packet width height (record stored { packet_index = 0 })

-- The end of mouse_init.
unfoldable pub reset : Mouse → Mouse
reset m = record m { x = 0; y = 0; buttons = 0; packet_index = 0 }
