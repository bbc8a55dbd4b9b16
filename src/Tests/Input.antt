-- ===== src/Tests/Input.antt =====
-- A tick of five samples: a frame that was put back, a frame that waits, and silence.
use mixlab.Prelude.{ℕ, ◌+◌, ◌/◌, ◌≡◌, refl, List, [], ◌∷◌, ◌++◌, none, some}
use mixlab.Prelude.Int.{pos, ltℤ}
use mixlab.Media.{new_duration, shorter, zero_duration}
use mixlab.Input.{InputMedia, StreamInput, AudioFrame, SourceRecv, run_tick, waiting_audio}
use mixlab.Input.Sound.{waiting}
use mixlab.Input.Pictures.{pictures, shown, InTick, run_tick_plays}
use mixlab.Tests.Media.{units, at_units, for_units}

abbrev media : InputMedia
media = record { Pcm = ℕ; Sample = ℕ; silence = 0; convert_sample = λ x. x + 100; Picture = ℕ }

abbrev sound : ℕ → List ℕ → AudioFrame units media
sound id payload = record { source_id = id; source_time = at_units 0; payload = payload }

abbrev recv : SourceRecv units media
recv = record {
  channel_name = [];
  audio_rx = sound 1 (3 ∷ 4 ∷ []) ∷ [];
  video_rx =
      record {
        source_id = 1;
        source_time = at_units 0;
        payload = record { decoded = 9; duration_hint = for_units 7350 };
      }
      ∷ [];
}

abbrev m : StreamInput units media
m = record {
  params = record { protocol = none; mountpoint = none };
  recv = some recv;
  source = none;
  audio_frame = some (sound 1 (1 ∷ 2 ∷ []));
  video_frame = none;
}

run_tick_plays_example :
    let (video, out, m') = run_tick m 735 5 in
    (pictures units media m ≡ shown units media video ++ pictures units media m')
    × InTick units media (new_duration (pos (5 / 2)) (pos 44100)) video
    × (out ≡ 101 ∷ 102 ∷ 103 ∷ 104 ∷ 0 ∷ [])
    × (waiting units media m' ≡ [])
unfolding shorter zero_duration ltℤ waiting_audio
run_tick_plays_example = run_tick_plays refl m 735 5
