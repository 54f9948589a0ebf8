-- ===== src/Mouse/Pointer.antt =====
-- The pointer of kernel/src/mouse.c and the screen.
use reborn_os.Prelude.{ℕ, ◌+◌, ◌-◌, ◌^◌, ◌<◌, ltb, u32, put, arith, Bool-cases, inl, inr}
use reborn_os.Mouse.Defs.{Mouse, clamp, apply_packet, mouse_irq_handler, displacement, bit}

-- The pointer is on the screen, its buttons are three bits and the packet has room.
pub record OnScreen (width height : ℕ) (m : Mouse) : Type 0 where
  pub x_on : m.x < width
  pub y_on : m.y < height
  pub three_buttons : m.buttons < 8
  pub room : m.packet_index < 3

clamp-lt : (size v : ℕ) → 0 < size → size < 2 ^ 31 → clamp size v < size
clamp-lt size v p h = ground arith

apply_packet-OnScreen :
    (width height : ℕ) (m : Mouse)
    → 0 < width
    → width < 2 ^ 31
    → 0 < height
    → height < 2 ^ 31
    → OnScreen width height m
    → OnScreen width height (apply_packet width height m)
unfolding apply_packet
apply_packet-OnScreen width height m pw w ph h o = elim (Bool-cases (bit (m.packet 0) 3)) [
  | inl e ↦ rw e (record {
    x_on = clamp-lt width (u32 (m.x + displacement (bit (m.packet 0) 4) (m.packet 1))) pw w;
    y_on =
        clamp-lt height (u32 (m.y + 2 ^ 32 - displacement (bit (m.packet 0) 5) (m.packet 2))) ph h;
    three_buttons = omega arith;
    room = o.room;
  })
  | inr e ↦ rw e o
]

-- Whatever byte the mouse sends, on a screen with at least one and less than 2^31 pixels a side, a
-- pointer on the screen stays on it, the buttons are three bits and the packet buffer of three
-- bytes is not overrun.
pub mouse_irq_handler-OnScreen :
    (width height byte : ℕ) (m : Mouse)
    → 0 < width
    → width < 2 ^ 31
    → 0 < height
    → height < 2 ^ 31
    → OnScreen width height m
    → OnScreen width height (mouse_irq_handler width height byte m)
unfolding mouse_irq_handler
mouse_irq_handler-OnScreen width height byte m pw w ph h o =
    elim (Bool-cases (ltb (m.packet_index + 1) 3)) [
      | inl e ↦ rw e (record {
        x_on = o.x_on;
        y_on = o.y_on;
        three_buttons = o.three_buttons;
        room = ground arith;
      })
      | inr e ↦ rw e (
          apply_packet-OnScreen width height
            (record m { packet = put m.packet m.packet_index byte; packet_index = 0 }) pw w ph h
            (record {
              x_on = o.x_on;
              y_on = o.y_on;
              three_buttons = o.three_buttons;
              room = omega arith;
            }))
    ]
