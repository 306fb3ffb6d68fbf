-- ===== src/Config.antt =====
-- src/config.c: the line reader of the two configuration files.
pub mod Reader
pub mod Words
pub mod Options
pub mod Bindings
pub mod File
pub mod Tests
pub mod OptionTests
mod BindingTests
