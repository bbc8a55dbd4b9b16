-- ===== src/Video/Clock.antt =====
-- The time up to which src/video/encode.rs has encoded pictures.
use mixlab.Prelude.{
  ◌≡◌, refl, sym, ap, ap₂, subst, ◌∙◌, List, [], ◌∷◌, ◌++◌, map, Bool-cases, inl, inr,
}
use mathlib.Core.List.{append-nil, append_assoc}
use mixlab.Prelude.Int.{◌-ℤ◌}
use mixlab.Media.{Rational, MediaTime, before, after, since, round_to_base}
use mixlab.Video.{Codecs, EncodeStream, segment_of, encode_video, send_video, barrier}
use mixlab.Video.Calls.{
  OrderLaws, later, latest, VideoCall, call, run_calls, until, after-since, later_end, later_start,
  Shown, Chain, frames_from, encode_all, Encoded, Pictures, send, wait,
}

module _ {R : Rational} {C : Codecs} (laws : OrderLaws R) where
  encode_video_until :
      (s : EncodeStream R C) (t : MediaTime R) (frame : C.Frame)
      → (encode_video s (since t s.video_timestamp) frame).video_timestamp ≡ t
  unfolding encode_video
  encode_video_until s t frame = after-since laws t s.video_timestamp

  call_lem :
      (s : EncodeStream R C) (c : VideoCall R C)
      → (call s c).video_timestamp ≡ later s.video_timestamp (until c)
  unfolding send_video barrier later
  call_lem s (wait t) = elim (Bool-cases (before s.video_timestamp t)) [
    | inl e ↦ rw (e) (encode_video_until s t s.video_ctx.blank_frame)
    | inr e ↦ rw (e) refl
  ]
  call_lem s (send t d frame) = elim (Bool-cases (before (after t d) s.video_timestamp)) [
    | inl e ↦ rw (send_video, e) (sym (later_start laws s.video_timestamp (after t d) e))
    | inr e ↦
        rw (send_video, e)
          (encode_video_until s (after t d) frame
            ∙ sym (later_end laws s.video_timestamp (after t d) e))
  ]

  -- A picture that is encoded first, and then others.
  encode_video-Encoded :
      (s : EncodeStream R C) (t : MediaTime R) (frame : C.Frame) (pictures : List (Shown R C))
      (end : EncodeStream R C)
      → Encoded (encode_video s (since t s.video_timestamp) frame) pictures end
      → Encoded s (record { frame = frame; start = s.video_timestamp; end = t } ∷ pictures) end
  unfolding encode_video
  encode_video-Encoded s t frame pictures end (chain, queued, ctx) =
      let base = s.video_ctx.time_base in
      let start = round_to_base s.video_timestamp base in
      let (packets, codec) = C.recv_packets (C.send_frame s.video_ctx.codec frame start) in
      let at : after s.video_timestamp (since t s.video_timestamp) ≡ t =
        after-since laws t s.video_timestamp in
      (
        (refl, subst (λ x. Chain x pictures end.video_timestamp) at chain),
        subst
            (λ x.
              end.video_segments
              ≡ s.video_segments
                ++ (map (segment_of base (round_to_base x base -ℤ start)) packets
                    ++ (encode_all base codec pictures).0))
            at (queued ∙ append_assoc s.video_segments _ _),
        ctx,
      )

  -- What a call does: nothing, or it encodes a picture up to its time.
  data Does (s : EncodeStream R C) (c : VideoCall R C) : Type 0 where
    skips :
        call s c ≡ s
        → ((calls : List (VideoCall R C))
            → frames_from s.video_timestamp s.video_ctx.blank_frame (c ∷ calls)
              ≡ frames_from (later s.video_timestamp (until c)) s.video_ctx.blank_frame calls)
        → Does s c
    encodes :
        (frame : C.Frame)
        → call s c ≡ encode_video s (since (until c) s.video_timestamp) frame
        → ((calls : List (VideoCall R C))
            → frames_from s.video_timestamp s.video_ctx.blank_frame (c ∷ calls)
              ≡ frame
                ∷ frames_from (later s.video_timestamp (until c)) s.video_ctx.blank_frame calls)
        → Does s c

  call_cases : (s : EncodeStream R C) (c : VideoCall R C) → Does s c
  unfolding send_video barrier
  call_cases s (wait t) = elim (Bool-cases (before s.video_timestamp t)) [
    | inl e ↦ encodes s.video_ctx.blank_frame (rw (barrier, e) refl) (λ calls. rw (e) refl)
    | inr e ↦ skips (rw (barrier, e) refl) (λ calls. rw (e) refl)
  ]
  call_cases s (send t d frame) = elim (Bool-cases (before (after t d) s.video_timestamp)) [
    | inl e ↦ skips (rw (send_video, e) refl) (λ calls. rw (e) refl)
    | inr e ↦ encodes frame (rw (send_video, e) refl) (λ calls. rw (e) refl)
  ]

  encode_video-Pictures :
      (s : EncodeStream R C) (t : MediaTime R) (frame : C.Frame) (frames : List C.Frame)
      (end : EncodeStream R C)
      → Pictures (encode_video s (since t s.video_timestamp) frame) frames end
      → Pictures s (frame ∷ frames) end
  encode_video-Pictures s t frame frames end (pictures, encoded, same) = (
    record { frame = frame; start = s.video_timestamp; end = t } ∷ pictures,
    encode_video-Encoded s t frame pictures end encoded,
    ap (λ xs. frame ∷ xs) same,
  )

  moved :
      (s t end : EncodeStream R C) (frames frames' : List C.Frame)
      → s ≡ t
      → frames ≡ frames'
      → Pictures s frames end
      → Pictures t frames' end
  moved s t end frames frames' e e' pictures =
      subst (λ x. Pictures x frames' end) e (subst (λ x. Pictures s x end) e' pictures)

  frames_from-same :
      (t u : MediaTime R) (blank blank' : C.Frame) (calls : List (VideoCall R C))
      → t ≡ u
      → blank ≡ blank'
      → frames_from t blank calls ≡ frames_from u blank' calls
  frames_from-same t u blank blank' calls e e' = ap₂ (λ x y. frames_from x y calls) e e'

  called :
      (s : EncodeStream R C) (c : VideoCall R C) (calls : List (VideoCall R C))
      (end : EncodeStream R C)
      → Does s c
      → Pictures
          (call s c)
          (frames_from (call s c).video_timestamp (call s c).video_ctx.blank_frame calls)
          end
      → Pictures s (frames_from s.video_timestamp s.video_ctx.blank_frame (c ∷ calls)) end
  unfolding encode_video
  called s c calls end (skips e frames) pictures =
      moved (call s c) s end _ _ e
        (frames_from-same _ _ _ _ calls (call_lem s c)
            (ap (λ (x : EncodeStream R C). x.video_ctx.blank_frame) e)
          ∙ sym (frames calls))
        pictures
  called s c calls end (encodes frame e frames) pictures =
      let rest = frames_from (later s.video_timestamp (until c)) s.video_ctx.blank_frame calls in
      subst (λ x. Pictures s x end) (sym (frames calls))
        (encode_video-Pictures s (until c) frame rest end (
          moved (call s c) (encode_video s (since (until c) s.video_timestamp) frame) end _ _ e
            (frames_from-same _ _ _ _ calls (call_lem s c)
              (ap (λ (x : EncodeStream R C). x.video_ctx.blank_frame) e))
            pictures))

  -- After any calls of send_video and barrier the pictures are encoded up to the latest of the time
  -- at the start, the ends of the pictures sent and the times of the barriers. The frames that were
  -- given to the encoder are, in order, those of the pictures that did not end before the time that
  -- was reached when they were sent, and a blank one for each barrier after the time reached. Each is
  -- shown from the end of the one before it, the first from the time at the start, and what its
  -- packets make are the segments that the queue has grown by.
  pub encoded_until :
      (s : EncodeStream R C) (calls : List (VideoCall R C))
      → Pictures s (frames_from s.video_timestamp s.video_ctx.blank_frame calls) (run_calls s calls)
        × ((run_calls s calls).video_timestamp ≡ latest s.video_timestamp (map until calls))
  encoded_until s [] = (([], (refl, sym (append-nil s.video_segments), refl), refl), refl)
  encoded_until s (c ∷ calls) =
      let (pictures, reached) = encoded_until (call s c) calls in
      (
        called s c calls (run_calls (call s c) calls) (call_cases s c) pictures,
        reached ∙ ap (λ t. latest t (map until calls)) (call_lem s c),
      )
