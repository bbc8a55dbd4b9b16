-- ===== src/Rtmp.antt =====
-- src/rtmp: the packets that a stream is carried in.
pub mod Packet
pub mod Receive
