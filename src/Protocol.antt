-- ===== src/Protocol.antt =====
-- The package protocol: values, schemas and frames.
pub mod Types
pub mod Coerce
pub mod Words
pub mod Schema
pub mod FrameType
pub mod Frame
pub mod SchemaWire
