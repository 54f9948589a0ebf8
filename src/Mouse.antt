-- ===== src/Mouse.antt =====
-- kernel/src/mouse.c: the packets of the PS/2 mouse and the pointer that they move. The handshake
-- with the controller is port access and is left out.
mod Defs
pub mod Pointer
mod Tests
unfoldable pub use Defs.*
