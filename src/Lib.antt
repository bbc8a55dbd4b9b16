-- ===== src/Lib.antt =====
-- A verification library for mixlab, a digital audio and video workstation: models of its engine, its
-- clients' copy of the engine's state and its codecs, with the theorems that make them correct.
--
-- The program. A server process owns one engine thread. The engine (src/engine.rs and src/engine/)
-- keeps a workspace of modules whose inputs are connected to outputs, runs the modules sixty times a
-- second, and applies the messages of its clients. What it changes it logs to every client. A client
-- in the browser (frontend/src/session.rs) is sent the whole workspace when it connects and applies
-- the logged updates to its copy. Messages and updates are those of protocol/src/lib.rs. The
-- workspace is saved after each change. Media enter and leave as encoded streams (codec/src/): a
-- connection (src/listen.rs) that sends sound or pictures feeds a named channel (src/source.rs), which
-- the module of src/module/stream_input.rs plays; the modules stream_output.rs and monitor.rs encode
-- what they are given (src/video/encode.rs) for a server or for the clients' browsers.
--
-- The files. Each file says at its top which code it is about.
--   Prelude      shared helpers: Boolean tests, lists, results with panics, hash maps, masks
--   Util         src/util.rs: the sequence of identifiers, temporal warnings
--   Protocol     protocol/src/lib.rs: identifiers, terminals, operations and updates
--   Engine.Host       src/engine/module.rs: a module as a record of functions, and its laws
--   Engine.Workspace  src/engine/workspace.rs and src/persist.rs: connect, disconnect, load, save
--   Engine.Timing     src/engine/timing.rs: statistics of the ticks
--   Engine.Update     src/engine.rs: client_update, connect_session, dump_state
--   Engine.Order      src/engine.rs: the order in which run_tick runs the modules
--   Engine.Io         src/engine/io.rs: the buffers that modules read and write
--   Engine.Tick       src/engine.rs: the turns of the modules in run_tick
--   Engine.Invariant  validity of the workspace under messages and loads, and saving then loading
--   Engine.Mirror     the log against the clients' copies
--   Session      frontend/src/session.rs: the client's copy and its sequence numbers
--   Source       src/source.rs: named channels from a sender to a receiver
--   Rtmp.Packet  src/rtmp/packet.rs: the packets of an RTMP stream
--   Media        util/src/time.rs: times and durations over a parameter for rational numbers
--   Mux          mux/src/mp4.rs: the initialization segment and the media segments of an MP4 stream
--   Video        src/video/encode.rs: sound and pictures sent to encoders, the merge of what they give
--   Video.Scale  src/video/encode.rs: a picture put into one of another size, with bars beside it
--   Codec.Picture  codec/src/ffmpeg: sizes and parts of pictures, the checks before scaling
--   Input        src/module/stream_input.rs: the module that plays what a source sends
--   Rtmp.Receive src/rtmp/mod.rs: what a receiver does with the messages of a session
--   Output       src/module/stream_output.rs: the module that streams to an RTMP server, its
--                connection, its indications and its thread
--   Listen       src/listen.rs: a connection whose first bytes tell its protocol
--   Icecast      src/icecast/http.rs: the request at the start of a broadcaster's stream
--   VideoMixer   src/module/video_mixer.rs: the module that mixes two of four pictures
--   Monitor      src/module/monitor.rs: the module whose input is watched in a browser
--   Codec.Buf    the traits of the crate bytes, as a parameter with its documented laws
--   Codec.Avc    codec/src/avc: H.264 units, the configuration record, streams of units, and the
--                record that the encoder makes from its header
--   Codec.Aac    codec/src/aac: the AAC configuration and the ADTS header
--   Tests        the theorems at concrete inputs, and runs of the model
--
-- The model. A hash map is an association list; its order stands for the iteration order, and the
-- theorems hold for every list. A NonZeroUsize or usize is a natural number, with the overflow where
-- it happens written out. A panic is an outcome: none of an option, or panic of a Result. The log is
-- the list of what was sent to the broadcast channel, and the saved workspace the last value in the
-- watch channel; that a receiver may lag behind the broadcast channel's 64 entries is not modelled.
-- The modules behind the trait DynModuleHostT are a record of functions, and what the engine relies
-- on is HostLaws: a module has the parameters it was created with, and an update does not change its
-- terminals. The mixer of src/module/mixer.rs breaks the second law: it makes its inputs anew from the
-- number of channels, so the theorems that assume the laws say nothing of a workspace in which a
-- mixer's number of channels is changed.
-- The search for the run order recurses on fuel, one more than the number of modules: each nested
-- call marks a module that was not seen. The loop that receives segments has fuel for each queued segment,
-- of which each turn takes one. The loop that reads a request has 4097 turns: each reads a byte at
-- least, into a buffer of 4096.
--
-- What a module does in its turn of a tick is a parameter, TickHost, with its samples. Whether ffmpeg's
-- swscale gives a context for two pictures is a parameter too, with the law that it refuses a picture
-- without width or height. The engine drops the indication that a module's update returns; what a
-- module's run_tick returns is sent to the clients.
--
-- Not modelled: signal processing on floats and the mixing of pixels, the real-time loop and its
-- channels, sockets and the servers on them, files and SQL, the bindings to ffmpeg, and the views of
-- the browser.
pub mod Codec
pub mod Engine
pub mod Icecast
pub mod Input
pub mod Listen
pub mod Media
pub mod Monitor
pub mod Mux
pub mod Output
pub mod Prelude
pub mod Protocol
pub mod Rtmp
pub mod Session
pub mod Source
pub mod Tests
pub mod Util
pub mod Video
pub mod VideoMixer
