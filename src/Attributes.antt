-- ===== src/Attributes.antt =====
-- The attributes of an agent on their way to the service.
pub mod Gathered
pub mod Message
pub mod ToProto
pub mod Convert
pub mod Exchange
mod Tests
