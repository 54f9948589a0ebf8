-- ===== src/Mouse/Tests.antt =====
-- Runs of kernel/src/mouse.c on a screen of 800 by 600.
use reborn_os.Prelude.{◌≡◌, ◌==◌, refl, arith, if◌then◌else◌}
use reborn_os.Mouse.Defs.{Mouse, mouse_irq_handler, apply_packet}
use reborn_os.Mouse.Pointer.{OnScreen, mouse_irq_handler-OnScreen}

-- Two bytes of a packet are there: left button, two pixels to the left.
abbrev two_bytes : Mouse
two_bytes = record {
  x = 1;
  y = 599;
  buttons = 0;
  packet = λ i. if i == 0 then 0x19 else 0xFE;
  packet_index = 2;
}

mouse_irq_handler-OnScreen_example : OnScreen 800 600 (mouse_irq_handler 800 600 5 two_bytes)
mouse_irq_handler-OnScreen_example =
    mouse_irq_handler-OnScreen 800 600 5 two_bytes (omega arith) (omega arith) (omega arith)
      (omega arith)
      (record {
        x_on = omega arith;
        y_on = omega arith;
        three_buttons = omega arith;
        room = omega arith;
      })

-- The third byte, five pixels up: the pointer stops at the left edge.
moved : (mouse_irq_handler 800 600 5 two_bytes).x ≡ 0
unfolding mouse_irq_handler apply_packet
moved = refl
