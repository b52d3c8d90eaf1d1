-- ===== src/Delivery.antt =====
-- Server and client together: what one of them sends, as the other takes it in.
pub mod Schemas
pub mod Events
pub mod Rooms
pub mod Acks
pub mod Connects
