-- ===== src/Macros.antt =====
-- crates/macros: what the derives accept and what the code that they generate evaluates to. The parsing of
-- tokens is syn's, so an attribute is here the list of its keys with their values; spans and the
-- texts of errors are left out.
pub mod Attrs
pub mod SnakeCase
pub mod Queues
pub mod Job
