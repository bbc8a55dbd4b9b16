-- ===== src/Tests/Monitor.antt =====
-- Two ticks at a monitor, by encoders whose packets are key frames.
use mixlab.Prelude.{ℕ, ◌+◌, ◌≡◌, refl, List, [], ◌∷◌, true, none, some, arith}
use mixlab.Prelude.Lists.{All}
use mixlab.Prelude.Int.{ℤ, pos, negsuc, ◌-ℤ◌, ◌+ℤ◌, difference}
use mixlab.Mux.{MovieFragment}
use mixlab.Video.{Codecs, AudioCtx, VideoCtx, AvPacket}
use mixlab.Monitor.{Tick}
use mixlab.Monitor.Plays.{IsKeyPacket, MonitorCodecs}
use mixlab.Tests.Media.{units, at_units, for_units}
use mixlab.Tests.Video.{tick_samples}

-- The packet of each frame is still in the encoder when its packets are asked for.
abbrev queue : List ℤ → List AvPacket
queue [] = []
queue (t ∷ times) =
    record { decode_timestamp = t; presentation_timestamp = t; is_key_frame = true; bytes = 1 ∷ [] }
    ∷ queue times

abbrev key_codecs : Codecs
key_codecs = record {
  Sample = ℕ;
  Pcm = ℕ;
  AudioCodec = ℕ;
  VideoCodec = List ℤ;
  Frame = ℕ;
  convert = λ x. x + 1;
  encode = λ n pcm. (255 ∷ 241 ∷ 80 ∷ 128 ∷ 1 ∷ 63 ∷ 252 ∷ n ∷ [], n + 1);
  send_frame = λ codec frame pts. pts ∷ codec;
  recv_packets = λ codec. (queue codec, []);
}

minus_self : (x : ℤ) → x -ℤ x ≡ pos 0
unfolding ◌-ℤ◌ ◌+ℤ◌ difference
minus_self (pos a) = ground arith
minus_self (negsuc a) = ground arith

queue-IsKeyPacket : (times : List ℤ) → All IsKeyPacket (queue times)
queue-IsKeyPacket [] = tt
queue-IsKeyPacket (t ∷ times) = ((refl, minus_self t), queue-IsKeyPacket times)

abbrev laws : MonitorCodecs units key_codecs
laws = record {
  adts = λ codec pcm. omega arith;
  key_frames = λ codec. queue-IsKeyPacket codec;
  zero = refl;
}

abbrev audio_ctx : AudioCtx units key_codecs
audio_ctx = record { codec = 0; pcm_buff = []; sample_rate = pos 44100 }

abbrev video_ctx : VideoCtx units key_codecs
video_ctx = record { codec = []; blank_frame = 0; time_base = pos 44100 }

abbrev ticks : List (Tick units key_codecs)
ticks =
    record { timestamp = at_units 0; audio = tick_samples; video = none }
    ∷ record {
      timestamp = at_units 7350;
      audio = tick_samples;
      video =
          some
            (record { tick_offset = for_units 10; duration_hint = for_units 14700; decoded = 3 });
    }
    ∷ record { timestamp = at_units 14700; audio = tick_samples; video = none }
    ∷ []

abbrev box_size : MovieFragment → ℕ
box_size moof = 100
