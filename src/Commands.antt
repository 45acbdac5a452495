-- ===== src/Commands.antt =====
-- src/commands.rs: the command language.
pub mod Syntax
pub mod Numbers
pub mod Parse
pub mod Print
mod Tests
