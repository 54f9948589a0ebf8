-- ===== src/Keyboard/Tests.antt =====
-- Runs of kernel/src/keyboard.c.
use reborn_os.Prelude.{◌≡◌, refl, arith, [], ◌∷◌}
use reborn_os.Keyboard.Defs.{Keyboard, buffer_push, keyboard_irq_handler}
use reborn_os.Keyboard.Queue.{IsValid, contents, items, enqueue, buffer_push-enqueue}

-- Two keys in the last two slots of the ring.
abbrev two_keys : Keyboard
two_keys = record { buffer = λ i. 97; buf_head = 0; buf_tail = 62 }

two_keys-IsValid : IsValid two_keys
two_keys-IsValid = record { head_in_ring = omega arith; tail_in_ring = omega arith }

buffer_push-enqueue_example :
    IsValid (buffer_push 98 two_keys)
    × (contents (buffer_push 98 two_keys) ≡ enqueue 98 (contents two_keys))
buffer_push-enqueue_example = buffer_push-enqueue 98 two_keys two_keys-IsValid

-- Scancode 0x1E is an `a`; its release is dropped.
a_pressed :
    contents (keyboard_irq_handler 0x9E (keyboard_irq_handler 0x1E two_keys)) ≡ 97 ∷ 97 ∷ 97 ∷ []
unfolding keyboard_irq_handler buffer_push items
a_pressed = refl
