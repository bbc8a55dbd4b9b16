-- ===== src/Tests.antt =====
-- The theorems at concrete inputs, and runs of the model.
pub mod Sample
pub mod Codec
pub mod Engine
pub mod Order
pub mod Source
pub mod Packet
pub mod Streams
pub mod Tick
pub mod Timing
pub mod Session
pub mod Media
pub mod Video
pub mod Mux
pub mod Output
pub mod Input
pub mod Scale
pub mod Receive
pub mod Monitor
pub mod Icecast
pub mod VideoMixer
