-- ===== src/Tests/Receive.antt =====
-- A receiver that is sent a configuration and a packet of sound, and one that is sent too much.
use mathlib.Core.Bool
use mixlab.Prelude.{
  ℕ, zero, suc, ◌≡◌, refl, sym, ap, List, [], ◌∷◌, ◌++◌, none, some, some_inj, arith, length,
}
use mixlab.Prelude.Result.{Result, ok, err, panic}
use mixlab.Media.{MediaTime}
use mixlab.Engine.Io.{replicate}
use mixlab.Codec.Buf.{list_buf}
use mixlab.Codec.Aac.{
  AudioSpecificConfiguration, aac_low_complexity, parse_config, new_stream, into_bytes, try_from_u8,
}
use mixlab.Rtmp.Packet.{aac_raw_data, parse_audio, write_audio_packet}
use mixlab.Rtmp.Receive.{
  Receiver, ReceiveContext, RtmpError, ServerSessionResult, raised_event, audio_data_received,
  need_more_input, receive_audio_packet, handle_session_results,
}
use mixlab.Rtmp.Receive.Panics.{long_packet-panic}
use mixlab.Rtmp.Receive.Sound.{SentLaws, Advances}
use mixlab.Rtmp.Receive.Timeline.{sound_follows_on}
use mixlab.Tests.Media.{units, at_units}

-- A decoder that consumes all bytes and decodes to three values, and a sender that keeps what it is
-- given.
abbrev receiver : Receiver units
receiver = record {
  Pcm = ℕ;
  Picture = ℕ;
  AudioDecoder = ℕ;
  VideoDecoder = ℕ;
  OpenError = ℕ;
  AvError = ℕ;
  SourceSend = List (MediaTime units × List ℕ);
  Stream = ℕ;
  fill = λ d bytes. some (length bytes, d);
  decode_frame = λ d. (some (1 ∷ 2 ∷ 3 ∷ []), d);
  sample_rate = λ d. 44100;
  open_decoder = λ bytes. ok 0;
  send_packet = λ d dts pts bytes. some d;
  recv_frames = λ d. ([], need_more_input, d);
  write_audio = λ s t pcm. some (s ++ (t, pcm) ∷ []);
  write_video = λ s t picture d. s;
  write_all = λ s bytes. some s;
  recip = λ q. some q;
}

laws : SentLaws receiver
laws = record {
  log = λ s. s;
  wrote = λ s t pcm e. sym (some_inj e);
  showed = λ s t picture d. refl;
}

abbrev asc : AudioSpecificConfiguration
asc = record {
  object_type = aac_low_complexity;
  sampling_frequency_index = 4;
  channel_configuration = 2;
  frame_length_flag = Bool.false;
  depends_on_core_coder = Bool.false;
  extension_flag = Bool.false;
}

abbrev start : ReceiveContext receiver
start = record {
  stream = 0;
  source = [];
  video_frame_duration = none;
  audio_codec = 0;
  audio_asc = none;
  audio_timestamp = at_units 0;
  video_codec = none;
}

abbrev actions : List ServerSessionResult
actions =
    raised_event (audio_data_received (0xaf ∷ 0 ∷ 0x12 ∷ 0x10 ∷ []))
    ∷ raised_event (audio_data_received (0xaf ∷ 1 ∷ 7 ∷ 7 ∷ []))
    ∷ raised_event (audio_data_received (0xaf ∷ 1 ∷ 8 ∷ []))
    ∷ []

abbrev context_of : Result (RtmpError receiver) (ReceiveContext receiver) → ReceiveContext receiver
context_of (ok ctx) = ctx
context_of (err e) = start
context_of panic = start

sound_follows_on_example :
    Advances laws start (context_of (handle_session_results list_buf start actions))
unfolding handle_session_results parse_audio list_buf parse_config try_from_u8 new_stream into_bytes
sound_follows_on_example =
    sound_follows_on laws list_buf start
      (context_of (handle_session_results list_buf start actions)) actions refl

abbrev ready : ReceiveContext receiver
ready = record start { audio_asc = some asc }

length-replicate : (n x : ℕ) → length (replicate n x) ≡ n
unfolding replicate
length-replicate zero x = refl
length-replicate (suc n) x = ap suc (length-replicate n x)

long_packet-panic_example :
    receive_audio_packet list_buf ready
      (write_audio_packet list_buf (aac_raw_data (replicate 9000 7)) [])
    ≡ panic
long_packet-panic_example =
    long_packet-panic list_buf ready (replicate 9000 7) asc refl
      (omega (arith, length-replicate 9000 7))
