-- ===== src/Parser.antt =====
-- parser: socket.io packets in the frames of an engine.io session.
pub mod Header
pub mod Values
pub mod Frames
