-- ===== src/Acpi.antt =====
-- kernel/src/acpi.c: the processors that the firmware's tables list.
mod Defs
pub mod Madt
mod Tests
unfoldable pub use Defs.*
