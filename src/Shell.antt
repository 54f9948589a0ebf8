-- ===== src/Shell.antt =====
-- userland/shell.c: the line editor and the commands of the shell.
mod Defs
pub mod Tokens
mod Tests
unfoldable pub use Defs.*
