-- ===== src/Models.antt =====
-- src/models: the plain data that the services exchange.
pub mod Facts
pub mod Json
pub mod Condition
pub mod Rule
