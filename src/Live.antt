-- ===== src/Live.antt =====
-- The live stream of the console: its socket, and the reducer that applies its frames to the caches.
pub mod Stream
pub mod Frames
