-- ===== src/Input.antt =====
-- src/module/stream_input.rs: the module that plays what a source sends.
pub mod Sound
pub mod Pictures
use mathlib.Core.Option
use mixlab.Prelude.{
  ℕ, zero, suc, ◌-◌, ◌*◌, ◌/◌, ◌==◌, ◌&&◌, not, Bool, true, false, List, [], ◌∷◌, ◌++◌, map, Option,
  none, some, if◌then◌else◌, ltb,
}
use mixlab.Prelude.Lists.{length, take, drop}
use mixlab.Prelude.Int.{pos}
use mixlab.Media.{
  Rational, MediaTime, MediaDuration, new_time, new_duration, add_epoch, remove_epoch, since,
  shorter, zero_duration,
}
use mixlab.Engine.Io.{replicate}
use mixlab.Source.{Frame}
use mixlab.Prelude.Lists.{same_text}

-- Samples as i16 and as floats, and decoded pictures.
pub record InputMedia : Type 1 where
  pub Pcm : Type 0
  pub Sample : Type 0
  pub silence : Sample
  pub convert_sample : Pcm → Sample
  pub Picture : Type 0

pub data StreamProtocol : Type 0 where
  icecast rtmp : StreamProtocol

pub record StreamInputParams : Type 0 where
  pub protocol : Option StreamProtocol
  pub mountpoint : Option (List ℕ)

module _ (R : Rational) (M : InputMedia) where
  -- video::Frame
  pub record VideoData : Type 0 where
    pub decoded : M.Picture
    pub duration_hint : MediaDuration R

  abbrev pub AudioFrame : Type 0
  AudioFrame = Frame (MediaTime R) (List M.Pcm)

  abbrev pub PictureFrame : Type 0
  PictureFrame = Frame (MediaTime R) VideoData

  -- SourceRecv, by what its ring buffers hold when a tick reads them.
  pub record SourceRecv : Type 0 where
    pub channel_name : List ℕ
    pub audio_rx : List AudioFrame
    pub video_rx : List PictureFrame

  pub record SourceTiming : Type 0 where
    pub id : ℕ
    pub epoch : MediaTime R

  pub record StreamInput : Type 0 where
    pub params : StreamInputParams
    pub recv : Option SourceRecv
    pub source : Option SourceTiming
    pub audio_frame : Option AudioFrame
    pub video_frame : Option PictureFrame

  -- The state of the loop that fills the audio output, at its end.
  pub record Filled : Type 0 where
    pub out : List M.Sample
    pub audio_frame : Option AudioFrame
    pub rest : List AudioFrame
    pub source : Option SourceTiming

  -- engine::VideoFrame
  pub record TickFrame : Type 0 where
    pub picture : VideoData
    pub tick_offset : MediaDuration R

abbrev pub as_list {ℓ} : {A : Type ℓ} → Option A → List A
as_list none = []
as_list (some x) = x ∷ []

unfoldable pub same_id : Option ℕ → ℕ → Bool
same_id none id = false
same_id (some x) id = x == id

module _ {R : Rational} {M : InputMedia} where
  -- The source's timing after a frame; the source that the tick began with is compared.
  unfoldable pub retimed :
      MediaTime R
      → Option ℕ
      → AudioFrame R M
      → Option (SourceTiming R M)
      → Option (SourceTiming R M)
  unfolding same_id
  retimed engine_time existing frame source =
      if same_id existing frame.source_id
      then source
      else some
          (record { id = frame.source_id; epoch = remove_epoch engine_time frame.source_time })

  -- The loop, over the frame that was put back and those that wait.
  unfoldable pub fill :
      MediaTime R → Option ℕ → ℕ → List (AudioFrame R M) → Option (SourceTiming R M) → Filled R M
  unfolding retimed replicate
  fill engine_time existing space [] source = record {
    out = replicate space M.silence;
    audio_frame = none;
    rest = [];
    source = source;
  }
  fill engine_time existing space (frame ∷ frames) source =
      let source' = retimed engine_time existing frame source in
      let filled = fill engine_time existing (space - length frame.payload) frames source' in
      if space == 0
      then record { out = []; audio_frame = none; rest = frame ∷ frames; source = source }
      else if ltb space (length frame.payload)
      then record {
        out = map M.convert_sample (take space frame.payload);
        audio_frame = some (record frame { payload = drop space frame.payload });
        rest = frames;
        source = source';
      }
      else record filled { out = map M.convert_sample frame.payload ++ filled.out }

  unfoldable pub waiting_audio : Option (SourceRecv R M) → List (AudioFrame R M)
  waiting_audio none = []
  waiting_audio (some recv) = recv.audio_rx

  unfoldable pub waiting_video : Option (SourceRecv R M) → List (PictureFrame R M)
  waiting_video none = []
  waiting_video (some recv) = recv.video_rx

  unfoldable pub with_audio :
      Option (SourceRecv R M) → List (AudioFrame R M) → Option (SourceRecv R M)
  with_audio none frames = none
  with_audio (some recv) frames = some (record recv { audio_rx = frames })

  unfoldable pub fill_audio : MediaTime R → ℕ → StreamInput R M → List M.Sample × StreamInput R M
  unfolding fill waiting_audio with_audio
  fill_audio engine_time space m =
      let existing : Option ℕ = Option.map (λ (s : SourceTiming R M). s.id) m.source in
      let filled =
        fill engine_time existing space (as_list m.audio_frame ++ waiting_audio m.recv) m.source in
      if space == 0 then ([], m) else (
        filled.out,
        record m {
          audio_frame = filled.audio_frame;
          recv = with_audio m.recv filled.rest;
          source = filled.source;
        },
      )

  -- `read_video`, with what its buffer holds.
  unfoldable pub pop_video :
      SourceRecv R M → List (PictureFrame R M) → Option (PictureFrame R M) × Option (SourceRecv R M)
  pop_video recv [] = (none, some (record recv { video_rx = [] }))
  pop_video recv (frame ∷ frames) = (some frame, some (record recv { video_rx = frames }))

  -- The frame that was put back, or else one from the receiver.
  unfoldable pub next_video :
      Option (PictureFrame R M)
      → Option (SourceRecv R M)
      → Option (PictureFrame R M) × Option (SourceRecv R M)
  unfolding pop_video
  next_video (some frame) recv = (some frame, recv)
  next_video none none = (none, none)
  next_video none (some recv) = pop_video recv recv.video_rx

  unfoldable pub take_video : StreamInput R M → Option (PictureFrame R M) × StreamInput R M
  unfolding next_video
  take_video m =
      let (frame, recv) = next_video m.video_frame m.recv in
      (frame, record m { video_frame = none; recv = recv })

  unfoldable pub tick_offset_of :
      MediaTime R → Option (SourceTiming R M) → PictureFrame R M → MediaDuration R
  tick_offset_of engine_time none frame = zero_duration
  tick_offset_of engine_time (some source) frame =
      let offset = since (add_epoch frame.source_time source.epoch) engine_time in
      if not (shorter offset zero_duration) then offset else zero_duration

  unfoldable pub show_video :
      MediaTime R
      → MediaDuration R
      → Option (PictureFrame R M)
      → StreamInput R M
      → Option (TickFrame R M) × StreamInput R M
  unfolding tick_offset_of
  show_video engine_time tick_duration none m = (none, m)
  show_video engine_time tick_duration (some frame) m =
      let offset = tick_offset_of engine_time m.source frame in
      if shorter tick_duration offset
      then (none, record m { video_frame = some frame })
      else (some (record { picture = frame.payload; tick_offset = offset }), m)

  -- With the length of the audio output; SAMPLE_RATE is 44100.
  unfoldable pub run_tick :
      StreamInput R M → ℕ → ℕ → Option (TickFrame R M) × List M.Sample × StreamInput R M
  unfolding take_video fill_audio show_video new_time new_duration
  run_tick m t space =
      let engine_time = new_time (pos t) (pos 44100) in
      let tick_duration = new_duration (pos (space / 2)) (pos 44100) in
      let (frame, taken) = take_video m in
      let (out, filled) = fill_audio engine_time space taken in
      let (video, end) = show_video engine_time tick_duration frame filled in (video, out, end)

-- The registries of src/icecast and src/rtmp.
pub record Registries (R : Rational) (M : InputMedia) : Type 0 where
  pub icecast_listen : List ℕ → Option (SourceRecv R M)
  pub rtmp_listen : List ℕ → Option (SourceRecv R M)

unfoldable pub same_option : Option (List ℕ) → Option (List ℕ) → Bool
unfolding same_text
same_option none none = true
same_option none (some y) = false
same_option (some x) none = false
same_option (some x) (some y) = same_text x y

unfoldable pub same_protocol : Option StreamProtocol → Option StreamProtocol → Bool
same_protocol none none = true
same_protocol none (some y) = false
same_protocol (some x) none = false
same_protocol (some icecast) (some icecast) = true
same_protocol (some icecast) (some rtmp) = false
same_protocol (some rtmp) (some icecast) = false
same_protocol (some rtmp) (some rtmp) = true

module _ {R : Rational} {M : InputMedia} (reg : Registries R M) where
  unfoldable pub listen_on : StreamProtocol → List ℕ → Option (SourceRecv R M)
  listen_on icecast mountpoint = reg.icecast_listen mountpoint
  listen_on rtmp mountpoint = reg.rtmp_listen mountpoint

  unfoldable pub listen_mountpoint : StreamInputParams → Option (SourceRecv R M)
  unfolding listen_on
  listen_mountpoint params = elim params.mountpoint [
    | none ↦ none
    | some mountpoint ↦ elim params.protocol [
      | none ↦ none
      | some protocol ↦ listen_on protocol mountpoint
    ]
  ]

  unfoldable pub create : StreamInputParams → StreamInput R M
  unfolding listen_mountpoint
  create params = record {
    params = params;
    recv = listen_mountpoint params;
    source = none;
    audio_frame = none;
    video_frame = none;
  }

  unfoldable pub update : StreamInput R M → StreamInputParams → StreamInput R M
  unfolding listen_mountpoint same_option same_protocol
  update m new =
      let current = Option.map (λ (r : SourceRecv R M). r.channel_name) m.recv in
      let same =
        same_option current new.mountpoint && same_protocol m.params.protocol new.protocol in
      record m { recv = if same then m.recv else listen_mountpoint new; params = new }
