-- ===== src/Output/Live/Sound.antt =====
-- The sound that the thread of src/module/stream_output.rs publishes.
use mathlib.Core.List.{append-nil}
use mixlab.Prelude.{
  ℕ, ◌+◌, ◌≡◌, ◌≤◌, refl, sym, ap, subst, ◌∙◌, List, [], ◌∷◌, ◌++◌, map, Option, none, some,
  Bool-cases, inl, inr, arith,
}
use mixlab.Prelude.Lists.{length, All, map-append}
use mixlab.Media.{Rational, MediaTime, MediaDuration, before, after, since, remove_epoch}
use mixlab.Rtmp.Packet.{aac_sequence_header, aac_raw_data}
use mixlab.Video.{
  Codecs, EncodeStream, AudioCtx, AudioSegment, StreamSegment, send_audio, send_video, barrier,
  encode_video, audio_frame_sample_count,
}
use mixlab.Video.Audio.{Encodes, Encodes-then, IsBounded, send_audio-IsBounded, concat}
use mixlab.Video.Merge.{recv_all, recv_all-merged, merged, merged_kept, audio_of}
use mixlab.Output.{Network, LiveOutputMsg}
use mixlab.Output.Live.{
  VideoFrame, LiveOutput, Publication, publish_audio, publish_video, publication_of, send_tick,
  send_video_frame, tick, run_thread, signals_of,
}

-- The encoded frames among what is published.
abbrev pub raw_frames : List Publication → List (List ℕ)
raw_frames [] = []
raw_frames (publish_audio (aac_raw_data frame) timestamp ∷ rest) = frame ∷ raw_frames rest
raw_frames (publish_audio (aac_sequence_header asc) timestamp ∷ rest) = raw_frames rest
raw_frames (publish_video packet timestamp ∷ rest) = raw_frames rest

raw_frames-append :
    (xs ys : List Publication) → raw_frames (xs ++ ys) ≡ raw_frames xs ++ raw_frames ys
raw_frames-append [] ys = refl
raw_frames-append (publish_audio (aac_raw_data frame) timestamp ∷ xs) ys =
    ap (λ r. frame ∷ r) (raw_frames-append xs ys)
raw_frames-append (publish_audio (aac_sequence_header asc) timestamp ∷ xs) ys =
    raw_frames-append xs ys
raw_frames-append (publish_video packet timestamp ∷ xs) ys = raw_frames-append xs ys

module _ {R : Rational} where
  abbrev pub frames : List (AudioSegment R) → List (List ℕ)
  frames = map (λ (a : AudioSegment R). a.frame)

  raw_frames_of :
      (segments : List (StreamSegment R))
      → raw_frames (map publication_of segments) ≡ frames (audio_of segments)
  unfolding publication_of
  raw_frames_of [] = refl
  raw_frames_of (StreamSegment.audio a ∷ segments) = ap (λ r. a.frame ∷ r) (raw_frames_of segments)
  raw_frames_of (StreamSegment.video v ∷ segments) = raw_frames_of segments

module _ {R : Rational} {C : Codecs} where
  -- Pictures do not touch the sound.
  abbrev pub SameSound : EncodeStream R C → EncodeStream R C → Type 0
  SameSound s t = (t.audio_segments ≡ s.audio_segments) × (t.audio_ctx ≡ s.audio_ctx)

  encode_video-SameSound :
      (s : EncodeStream R C) (d : MediaDuration R) (frame : C.Frame)
      → SameSound s (encode_video s d frame)
  unfolding encode_video
  encode_video-SameSound s d frame = (refl, refl)

  barrier-SameSound : (s : EncodeStream R C) (t : MediaTime R) → SameSound s (barrier s t)
  unfolding barrier
  barrier-SameSound s t = elim (Bool-cases (before s.video_timestamp t)) [
    | inl e ↦
        rw (barrier, e)
          (encode_video-SameSound s (since t s.video_timestamp) s.video_ctx.blank_frame)
    | inr e ↦ rw (barrier, e) (refl, refl)
  ]

  send_video-SameSound :
      (s : EncodeStream R C) (t : MediaTime R) (frame : Option (VideoFrame R C))
      → SameSound s (send_video_frame s t frame)
  unfolding send_video_frame send_video
  send_video-SameSound s t none = (refl, refl)
  send_video-SameSound s t (some frame) =
      let end = after (after t frame.tick_offset) frame.duration_hint in
      elim (Bool-cases (before end s.video_timestamp)) [
        | inl e ↦ rw (send_video, e) (refl, refl)
        | inr e ↦
            rw (send_video, e)
              (encode_video-SameSound s (since end s.video_timestamp) frame.decoded)
      ]

  pub send_tick-SameSound :
      (s : EncodeStream R C) (t : MediaTime R) (audio : List C.Sample)
      (video : Option (VideoFrame R C))
      → SameSound (send_audio s audio) (send_tick s t audio video)
  unfolding send_tick
  send_tick-SameSound s t audio video =
      let (queue, ctx) = send_video-SameSound (send_audio s audio) t video in
      let (queue', ctx') = barrier-SameSound (send_video_frame (send_audio s audio) t video) t in
      (queue' ∙ queue, ctx' ∙ ctx)

  -- The stream after its segments were taken.
  abbrev pub Takes : EncodeStream R C → List (List ℕ) → EncodeStream R C → Type 0
  Takes s out t =
      (out ++ frames t.audio_segments ≡ frames s.audio_segments) × (t.audio_ctx ≡ s.audio_ctx)

  pub Encodes-Takes :
      (s t u : EncodeStream R C) (sent : List C.Pcm) (out : List (List ℕ))
      → Encodes s sent [] t
      → Takes t out u
      → Encodes s sent out u
  Encodes-Takes s t u sent out (blocks, kept, sized, queued, codec) (took, ctx) = (
    blocks,
    kept ∙ ap (λ (c : AudioCtx R C). concat blocks ++ c.pcm_buff) (sym ctx),
    sized,
    took ∙ queued,
    ap (λ (c : AudioCtx R C). c.codec) ctx ∙ codec,
  )

  recv_all-Takes :
      (fuel : ℕ) (s : EncodeStream R C)
      → length s.audio_segments + length s.video_segments ≤ fuel
      → Takes s (raw_frames (map publication_of (recv_all fuel s).0)) (recv_all fuel s).1
  recv_all-Takes fuel s h =
      let audios = s.audio_segments in
      let videos = s.video_segments in
      rw (recv_all-merged fuel s h) (
        ap (λ r. r ++ frames (merged audios videos).1) (raw_frames_of (merged audios videos).0)
            ∙ (sym (
                  map-append (λ (a : AudioSegment R). a.frame) (audio_of (merged audios videos).0)
                    (merged audios videos).1)
                ∙ ap frames (merged_kept audios videos).0),
        refl,
      )

  tick_lem :
      (live : LiveOutput R C) (t : MediaTime R) (audio : List C.Sample)
      (video : Option (VideoFrame R C))
      → IsBounded live.encode
      → length audio ≤ audio_frame_sample_count
      → let (out, live') = tick live t audio video in
        Encodes live.encode (map C.convert audio) (raw_frames out) live'.encode
        × IsBounded live'.encode
  unfolding tick
  tick_lem live t audio video bounded short =
      let (encodes, bounded') = send_audio-IsBounded live.encode audio bounded short in
      let sent = send_tick live.encode (remove_epoch t live.epoch) audio video in
      let (queue, ctx) = send_tick-SameSound live.encode (remove_epoch t live.epoch) audio video in
      let fuel = length sent.audio_segments + length sent.video_segments in
      let (took, ctx') = recv_all-Takes fuel sent (omega arith) in
      (
        Encodes-Takes live.encode (send_audio live.encode audio) (recv_all fuel sent).1
            (map C.convert audio) (raw_frames (map publication_of (recv_all fuel sent).0)) encodes
            (took ∙ ap frames queue, ctx' ∙ ctx),
        subst (λ (c : AudioCtx R C). length c.pcm_buff ≤ audio_frame_sample_count)
            (sym (ctx' ∙ ctx)) bounded',
      )

module _ (R : Rational) (C : Codecs) (N : Network) (silence : C.Sample) where
  abbrev pub Msg : Type 0
  Msg = LiveOutputMsg R N (signals_of R C silence)

  abbrev pub samples_of : List Msg → List C.Sample
  samples_of messages = concat (map (λ (m : Msg). m.audio) messages)

  -- No message brings more samples than a frame has.
  abbrev pub AreShort : List Msg → Type 0
  AreShort = All (λ (m : Msg). length m.audio ≤ audio_frame_sample_count)

module _ {R : Rational} {C : Codecs} {N : Network} {silence : C.Sample} where
  -- When the buffer of the thread holds at most a frame and no message brings more samples than a
  -- frame has, the sound that is published is that of the messages: the encoded frames published,
  -- and then those in the queue, are the queue at the start and what the encoder gives, in order,
  -- for frames of 2048 values whose concatenation, followed by the buffer, is the buffer at the
  -- start followed by the converted samples of all messages. The buffer holds at most a frame.
  pub sound_published :
      (live : LiveOutput R C) (messages : List (Msg R C N silence))
      → IsBounded live.encode
      → AreShort R C N silence messages
      → let (out, end) = run_thread live messages in
        Encodes live.encode
          (map C.convert (samples_of R C N silence messages))
          (raw_frames out)
          end.encode
        × IsBounded end.encode
  unfolding run_thread
  sound_published live [] h k = (
    (
      [],
      append-nil live.encode.audio_ctx.pcm_buff,
      tt,
      sym (append-nil (frames live.encode.audio_segments)),
      refl,
    ),
    h,
  )
  sound_published live (msg ∷ messages) h (k, ks) =
      let (out, live') = tick live msg.timestamp msg.audio msg.video in
      let (rest, end) = run_thread live' messages in
      let others = samples_of R C N silence messages in
      let (first, bounded) = tick_lem live msg.timestamp msg.audio msg.video h k in
      let (later, bounded') = sound_published live' messages bounded ks in
      (
        rw (raw_frames-append out rest, map-append C.convert msg.audio others)
            (Encodes-then live.encode live'.encode end.encode (map C.convert msg.audio)
              (map C.convert others) (raw_frames out) (raw_frames rest) first later),
        bounded',
      )
