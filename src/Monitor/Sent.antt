-- ===== src/Monitor/Sent.antt =====
-- The sound and the pictures in what the thread of src/module/monitor.rs sends.
use mathlib.Core.List.{append-nil}
use mixlab.Prelude.{
  ℕ, ◌+◌, ◌≡◌, ◌≤◌, refl, sym, ap, ap₂, subst, ◌∙◌, List, [], ◌∷◌, ◌++◌, map, Option, none, some,
  Bool-cases, inl, inr, ltb,
}
use mixlab.Prelude.Lists.{length, map-append, All}
use mixlab.Media.{Rational, MediaTime, after}
use mixlab.Video.{
  Codecs, EncodeStream, AudioCtx, VideoCtx, AudioSegment, StreamSegment, send_audio, send_samples,
  encode_frame, queue_audio, audio_frame_sample_count,
}
use mixlab.Video.Audio.{concat, Encodes, Encodes-then, IsBounded, send_audio-IsBounded}
use mixlab.Video.Calls.{
  OrderLaws, VideoCall, send, wait, run_calls, latest, until, frames_from, Pictures,
}
use mixlab.Video.Clock.{encoded_until}
use mixlab.Video.Merge.{recv_all, recv_all-merged, merged, merged_kept, audio_of}
use mixlab.Video.Pictures.{SameVideo, Pictures-same, Pictures-then, untaken, frames_from-append}
use mixlab.Output.Live.{VideoFrame, send_tick, send_video_frame}
use mixlab.Output.Live.Sound.{frames, send_tick-SameSound, Takes, Encodes-Takes}
use mixlab.Monitor.{Tick}

module _ {R : Rational} where
  audio_of-append :
      (xs ys : List (StreamSegment R)) → audio_of (xs ++ ys) ≡ audio_of xs ++ audio_of ys
  audio_of-append [] ys = refl
  audio_of-append (StreamSegment.audio a ∷ xs) ys = ap (λ r. a ∷ r) (audio_of-append xs ys)
  audio_of-append (StreamSegment.video v ∷ xs) ys = audio_of-append xs ys

  -- The encoded frames of sound among segments.
  abbrev pub sound_of : List (StreamSegment R) → List (List ℕ)
  sound_of segments = frames (audio_of segments)

  sound_of-append :
      (xs ys : List (StreamSegment R)) → sound_of (xs ++ ys) ≡ sound_of xs ++ sound_of ys
  sound_of-append xs ys =
      ap frames (audio_of-append xs ys)
      ∙ map-append (λ (a : AudioSegment R). a.frame) (audio_of xs) (audio_of ys)

module _ {R : Rational} {C : Codecs} where
  -- The calls that concern the pictures of a tick.
  abbrev pub calls_of : Tick R C → List (VideoCall R C)
  calls_of tick = elim tick.video [
    | none ↦ wait tick.timestamp ∷ []
    | some frame ↦
        send (after tick.timestamp frame.tick_offset) frame.duration_hint frame.decoded
        ∷ wait tick.timestamp
        ∷ []
  ]

  send_audio-SameVideo :
      (s : EncodeStream R C) (samples : List C.Sample) → SameVideo s (send_audio s samples)
  unfolding send_audio send_samples encode_frame queue_audio
  send_audio-SameVideo s samples =
      elim (Bool-cases
        (ltb audio_frame_sample_count (length (s.audio_ctx.pcm_buff ++ map C.convert samples)))) [
          | inl e ↦ rw (e) (refl, refl, refl)
          | inr e ↦ rw (e) (refl, refl, refl)
        ]

  send_tick-calls :
      (s : EncodeStream R C) (t : MediaTime R) (audio : List C.Sample)
      (video : Option (VideoFrame R C))
      → run_calls
          (send_audio s audio)
          (calls_of (record { timestamp = t; audio = audio; video = video }))
        ≡ send_tick s t audio video
  unfolding send_tick send_video_frame
  send_tick-calls s t audio none = refl
  send_tick-calls s t audio (some frame) = refl

  -- Taking segments leaves the rest of the stream as it is.
  recv_all-taken :
      (fuel : ℕ) (s : EncodeStream R C)
      → length s.audio_segments + length s.video_segments ≤ fuel
      → Takes s (sound_of (recv_all fuel s).0) (recv_all fuel s).1
        × SameVideo s (untaken (recv_all fuel s).0 (recv_all fuel s).1)
  recv_all-taken fuel s h =
      let audios = s.audio_segments in
      let videos = s.video_segments in
      let (kept, kept') = merged_kept audios videos in
      rw (recv_all-merged fuel s h) (
        (
          sym (
                map-append (λ (a : AudioSegment R). a.frame) (audio_of (merged audios videos).0)
                  (merged audios videos).1)
              ∙ ap frames kept,
          refl,
        ),
        (kept', refl, refl),
      )

  -- What a run makes of a stream: all of its sound and of its pictures are in the segments and in
  -- the queues.
  abbrev pub Media :
      EncodeStream R C
      → List C.Pcm
      → List C.Frame
      → List (StreamSegment R)
      → EncodeStream R C
      → Type 0
  Media s pcm pictures segments end =
      Encodes s pcm (sound_of segments) end × Pictures s pictures (untaken segments end)

module _ {R : Rational} {C : Codecs} (laws : OrderLaws R) where
  pub tick-Media :
      (s : EncodeStream R C) (tick : Tick R C) (fuel : ℕ)
      → IsBounded s
      → length tick.audio ≤ audio_frame_sample_count
      → let given = send_tick s tick.timestamp tick.audio tick.video in
        (length given.audio_segments + length given.video_segments ≤ fuel)
        → let (out, end) = recv_all fuel given in
          Media s
            (map C.convert tick.audio)
            (frames_from s.video_timestamp s.video_ctx.blank_frame (calls_of tick))
            out
            end
          × IsBounded end
          × (end.video_timestamp ≡ latest s.video_timestamp (map until (calls_of tick)))
  tick-Media s tick fuel bounded short enough =
      let audio = tick.audio in
      let filled = send_audio s audio in
      let given = send_tick s tick.timestamp audio tick.video in
      let (out, end) = recv_all fuel given in
      let (encodes, bounded') = send_audio-IsBounded s audio bounded short in
      let (queue, ctx) = send_tick-SameSound s tick.timestamp audio tick.video in
      let ((took, ctx'), (r0, r1, r2)) = recv_all-taken fuel given enough in
      let (k0, k1, k2) = send_audio-SameVideo s audio in
      let called = send_tick-calls s tick.timestamp audio tick.video in
      let (pictures, reached) = encoded_until laws filled (calls_of tick) in
      let shown = frames_from filled.video_timestamp filled.video_ctx.blank_frame (calls_of tick) in
      let same : shown ≡ frames_from s.video_timestamp s.video_ctx.blank_frame (calls_of tick) =
        ap₂ (λ x (c : VideoCtx R C). frames_from x c.blank_frame (calls_of tick)) k1 k2 in
      (
        (
          Encodes-Takes s filled end (map C.convert audio) (sound_of out) encodes
              (took ∙ ap frames queue, ctx' ∙ ctx),
          subst (λ x. Pictures s x (untaken out end)) same
              (Pictures-same filled s given (untaken out end) shown (sym k0, sym k1, sym k2)
                (r0, r1, r2) (subst (λ x. Pictures filled shown x) called pictures)),
        ),
        subst (λ (c : AudioCtx R C). length c.pcm_buff ≤ audio_frame_sample_count)
            (sym (ctx' ∙ ctx)) bounded',
        r1
            ∙ (ap (λ (x : EncodeStream R C). x.video_timestamp) (sym called)
                ∙ (reached ∙ ap (λ x. latest x (map until (calls_of tick))) k1)),
      )

module _ {R : Rational} {C : Codecs} where
  pub Media-then :
      (s t u : EncodeStream R C) (pcm pcm' : List C.Pcm) (pictures pictures' : List C.Frame)
      (out out' : List (StreamSegment R))
      → Media s pcm pictures out t
      → Media t pcm' pictures' out' u
      → Media s (pcm ++ pcm') (pictures ++ pictures') (out ++ out') u
  Media-then s t u pcm pcm' pictures pictures' out out' (sound, shown) (sound', shown') = (
    subst (λ x. Encodes s (pcm ++ pcm') x u) (sym (sound_of-append out out'))
        (Encodes-then s t u pcm pcm' (sound_of out) (sound_of out') sound sound'),
    Pictures-then s t u out out' pictures pictures' shown shown',
  )

  pub no_Media : (s : EncodeStream R C) → Media s [] [] [] s
  no_Media s = (
    ([], append-nil s.audio_ctx.pcm_buff, tt, sym (append-nil (frames s.audio_segments)), refl),
    ([], (refl, sym (append-nil s.video_segments), refl), refl),
  )

  -- No tick brings more samples than a frame has.
  abbrev pub AreShort : List (Tick R C) → Type 0
  AreShort = All (λ (tick : Tick R C). length tick.audio ≤ audio_frame_sample_count)

  abbrev pub samples_of : List (Tick R C) → List C.Sample
  samples_of ticks = concat (map (λ (tick : Tick R C). tick.audio) ticks)

  abbrev pub all_calls : List (Tick R C) → List (VideoCall R C)
  all_calls ticks = concat (map calls_of ticks)

  -- The segments of a tick, and then those of the others.
  pub ticks-Media :
      (s s' end : EncodeStream R C) (tick : Tick R C) (ticks : List (Tick R C))
      (out rest : List (StreamSegment R))
      → Media s
          (map C.convert tick.audio)
          (frames_from s.video_timestamp s.video_ctx.blank_frame (calls_of tick))
          out
          s'
      → s'.video_timestamp ≡ latest s.video_timestamp (map until (calls_of tick))
      → Media s'
          (map C.convert (samples_of ticks))
          (frames_from s'.video_timestamp s'.video_ctx.blank_frame (all_calls ticks))
          rest
          end
      → Media s
          (map C.convert (samples_of (tick ∷ ticks)))
          (frames_from s.video_timestamp s.video_ctx.blank_frame (all_calls (tick ∷ ticks)))
          (out ++ rest)
          end
  ticks-Media s s' end tick ticks out rest (sound, (ps, (chain, queued, ctx), same)) reached
        media' =
      let blank = s.video_ctx.blank_frame in
      let first = frames_from s.video_timestamp blank (calls_of tick) in
      let later = frames_from s'.video_timestamp s'.video_ctx.blank_frame (all_calls ticks) in
      let pcm : map C.convert tick.audio ++ map C.convert (samples_of ticks)
          ≡ map C.convert (samples_of (tick ∷ ticks)) =
        sym (map-append C.convert tick.audio (samples_of ticks)) in
      let shown : first ++ later ≡ frames_from s.video_timestamp blank (all_calls (tick ∷ ticks)) =
        ap (λ x. first ++ x)
          (ap₂ (λ x (c : VideoCtx R C). frames_from x c.blank_frame (all_calls ticks)) reached ctx)
        ∙ sym (frames_from-append s.video_timestamp blank (calls_of tick) (all_calls ticks)) in
      subst
        (λ x.
          Media s x (frames_from s.video_timestamp blank (all_calls (tick ∷ ticks))) (out ++ rest)
            end)
        pcm
        (subst
          (λ x.
            Media s (map C.convert tick.audio ++ map C.convert (samples_of ticks)) x (out ++ rest)
              end)
          shown
          (Media-then s s' end (map C.convert tick.audio) (map C.convert (samples_of ticks)) first
            later out rest (sound, (ps, (chain, queued, ctx), same)) media'))
