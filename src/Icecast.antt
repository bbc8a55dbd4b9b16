-- ===== src/Icecast.antt =====
-- src/icecast: streams of sound that broadcasters send by HTTP.
pub mod Http
