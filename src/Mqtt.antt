-- ===== src/Mqtt.antt =====
-- The MQTT protocol, src/protocol/mqtt.
pub mod Session
pub mod Reader
pub mod Packet
pub mod Read
pub mod Write
pub mod Tests
