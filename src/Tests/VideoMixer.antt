-- ===== src/Tests/VideoMixer.antt =====
-- Pictures of two sizes at a mixer.
use mixlab.Prelude.{ℕ, List, [], ◌∷◌, Option, none, some}
use mixlab.VideoMixer.{VideoFrame, yuv420p, VideoMixerParams}
use mixlab.Tests.Media.{units, for_units}

abbrev picture : ℕ → ℕ → Option (VideoFrame units)
picture w h = some (record {
  decoded = record { width = w; height = h; pixel_format = yuv420p };
  duration_hint = for_units 20000;
  tick_offset = for_units 0;
})

-- The second tick has a larger picture on another channel, with the first still stored.
abbrev first : ℕ × List (Option (VideoFrame units))
first = (0, picture 640 361 ∷ none ∷ none ∷ none ∷ [])

abbrev second : ℕ × List (Option (VideoFrame units))
second = (735, none ∷ picture 1119 700 ∷ none ∷ none ∷ [])

abbrev params : VideoMixerParams
params = record { a = some 0; b = some 1 }
