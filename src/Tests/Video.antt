-- ===== src/Tests/Video.antt =====
-- An encoded stream with encoders that record what they were given.
use mixlab.Prelude.{ℕ, ◌+◌, ◌≡◌, refl, List, [], ◌∷◌, ◌++◌, map, true, arith}
use mixlab.Prelude.Lists.{length}
use mixlab.Prelude.Int.{ℤ, pos, ◌+ℤ◌, ltℤ, ltℤ_asym, ltℤ_antisym, add-sub}
use mixlab.Media.{before, after}
use mixlab.Engine.Io.{replicate}
use mixlab.Video.{Codecs, EncodeStream, AudioSegment, VideoSegment}
use mixlab.Video.Calls.{
  VideoCall, send, wait, run_calls, latest, later, until, frames_from, Pictures,
}
use mixlab.Video.Clock.{encoded_until}
use mixlab.Video.Merge.{recv_all, received_in_order, Ordered, audio_of, video_of, HoldsOne}
use mixlab.Tests.Media.{units, at_units, for_units}

-- An encoded frame is its number and size; the pictures are recorded by their times.
abbrev pub codecs : Codecs
codecs = record {
  Sample = ℕ;
  Pcm = ℕ;
  AudioCodec = ℕ;
  VideoCodec = List ℤ;
  Frame = ℕ;
  convert = λ x. x + 1;
  encode = λ n pcm. (n ∷ length pcm ∷ [], n + 1);
  send_frame = λ codec frame pts. pts ∷ codec;
  recv_packets = λ codec. ([], codec);
}

abbrev pub fresh : EncodeStream units codecs
fresh = record {
  audio_segments = [];
  audio_timestamp = at_units 0;
  audio_ctx = record { codec = 0; pcm_buff = []; sample_rate = pos 44100 };
  video_segments = [];
  video_timestamp = at_units 0;
  video_ctx = record { codec = []; blank_frame = 0; time_base = pos 44100 };
}

-- Two ticks of 735 samples on two channels.
abbrev pub tick_samples : List ℕ
tick_samples = replicate 1470 7

-- A picture, one that ends too early, and the end of a tick.
abbrev calls : List (VideoCall units codecs)
calls =
    send (at_units 0) (for_units 5000) 1
    ∷ send (at_units 100) (for_units 400) 2
    ∷ wait (at_units 7350)
    ∷ []

-- The second picture is dropped, and the blank one is frame 0.
frames_lem : frames_from fresh.video_timestamp 0 calls ≡ 1 ∷ 0 ∷ []
unfolding later before ltℤ after ◌+ℤ◌
frames_lem = refl

encoded_until_example :
    Pictures fresh (frames_from fresh.video_timestamp 0 calls) (run_calls fresh calls)
    × ((run_calls fresh calls).video_timestamp ≡ latest fresh.video_timestamp (map until calls))
encoded_until_example =
    encoded_until
      (record { plus-minus = λ a b. add-sub a b; asym = ltℤ_asym; antisym = ltℤ_antisym }) fresh
      calls

abbrev sound : ℕ → AudioSegment units
sound n = record { decode_timestamp = at_units n; duration = for_units 10240; frame = n ∷ [] }

abbrev picture : ℕ → VideoSegment units
picture n = record {
  decode_timestamp = at_units n;
  duration = for_units 7350;
  frame = record { is_key_frame = true; composition_time = for_units 0; bytes = n ∷ [] };
}

abbrev queued : EncodeStream units codecs
queued = record fresh {
  audio_segments = sound 0 ∷ sound 10240 ∷ sound 20480 ∷ [];
  video_segments = picture 0 ∷ picture 7350 ∷ picture 14700 ∷ [];
}

received_in_order_example :
    let (out, end) = recv_all 6 queued in
    Ordered ltℤ_asym (at_units 0) out end.audio_segments end.video_segments
    × (audio_of out ++ end.audio_segments ≡ queued.audio_segments)
    × (video_of out ++ end.video_segments ≡ queued.video_segments)
    × HoldsOne end.audio_segments end.video_segments
unfolding ltℤ before
received_in_order_example =
    received_in_order ltℤ_asym 6 queued (at_units 0) (omega arith)
      ((((refl, (refl, (tt, tt)))), ((refl, (refl, (tt, tt)))), refl, refl))
