-- ===== src/Engine/Io.antt =====
-- src/engine/io.rs: the buffers that a tick passes between modules. Samples are floats there and a
-- parameter here, as are video frames.
use mixlab.Prelude.{ℕ, zero, suc, ◌*◌, Bool, true, false, Option, none, some, List, [], ◌∷◌}
use mixlab.Protocol.{LineType, mono, stereo, video}

pub record Signals : Type 1 where
  pub Sample : Type 0
  pub silence : Sample
  pub VideoFrame : Type 0

abbrev pub samples_per_tick : ℕ
samples_per_tick = 735

abbrev pub channels : ℕ
channels = 2

-- `vec![x; n]`.
unfoldable pub replicate : {A : Type 0} → ℕ → A → List A
replicate zero x = []
replicate (suc n) x = x ∷ replicate n x

module _ (signals : Signals) where
  open signals use {Sample, silence, VideoFrame}

  pub data InputRef : Type 0 where
    disconnected : InputRef
    mono_input stereo_input : List Sample → InputRef
    video_input : Option VideoFrame → InputRef

  -- `Output`, and `OutputRef`, its mutable borrow.
  pub data Output : Type 0 where
    mono_output stereo_output : List Sample → Output
    video_output : Option VideoFrame → Output

module _ {signals : Signals} where
  open signals use {Sample, silence, VideoFrame}

  unfoldable pub is_connected : InputRef signals → Bool
  is_connected disconnected = false
  is_connected (mono_input _) = true
  is_connected (stereo_input _) = true
  is_connected (video_input _) = true

  -- `none` is a panic.
  unfoldable pub expect_mono : InputRef signals → Option (List Sample)
  unfolding replicate
  expect_mono disconnected = some (replicate samples_per_tick silence)
  expect_mono (mono_input buff) = some buff
  expect_mono (stereo_input _) = none
  expect_mono (video_input _) = none

  unfoldable pub expect_stereo : InputRef signals → Option (List Sample)
  unfolding replicate
  expect_stereo disconnected = some (replicate (samples_per_tick * channels) silence)
  expect_stereo (stereo_input buff) = some buff
  expect_stereo (mono_input _) = none
  expect_stereo (video_input _) = none

  unfoldable pub expect_video : InputRef signals → Option (Option VideoFrame)
  expect_video disconnected = some none
  expect_video (stereo_input _) = none
  expect_video (mono_input _) = none
  expect_video (video_input frame) = some frame

  unfoldable pub expect_mono_output : Output signals → Option (List Sample)
  expect_mono_output (mono_output buff) = some buff
  expect_mono_output (stereo_output _) = none
  expect_mono_output (video_output _) = none

  unfoldable pub expect_stereo_output : Output signals → Option (List Sample)
  expect_stereo_output (stereo_output buff) = some buff
  expect_stereo_output (mono_output _) = none
  expect_stereo_output (video_output _) = none

  unfoldable pub expect_video_output : Output signals → Option (Option VideoFrame)
  expect_video_output (stereo_output _) = none
  expect_video_output (mono_output _) = none
  expect_video_output (video_output frame) = some frame

  unfoldable pub from_line_type : LineType → Output signals
  unfolding replicate
  from_line_type mono = mono_output (replicate samples_per_tick silence)
  from_line_type stereo = stereo_output (replicate (samples_per_tick * channels) silence)
  from_line_type video = video_output none

  unfoldable pub as_input_ref : Output signals → InputRef signals
  as_input_ref (mono_output buff) = mono_input buff
  as_input_ref (stereo_output buff) = stereo_input buff
  as_input_ref (video_output packet) = video_input packet
