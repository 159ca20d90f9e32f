-- ===== src/Payload.antt =====
-- engineio/payload: packets in the body of a polling request.
pub mod Lengths
pub mod Units
pub mod Base64
pub mod Decoder
pub mod Encoder
pub mod Stream
pub mod Pauser
pub mod Feeder
pub mod Handover
