-- ===== src/Video/Calls.antt =====
-- The calls that src/video/encode.rs is sent for pictures, and what they come to.
use mixlab.Prelude.{
  ◌≡◌, refl, ap, true, false, List, [], ◌∷◌, ◌++◌, map, if◌then◌else◌, Bool-cases, inl, inr,
}
use mixlab.Prelude.Int.{ℤ, ◌-ℤ◌}
use mixlab.Media.{Rational, MediaTime, MediaDuration, before, after, since, round_to_base}
use mixlab.Video.{Codecs, EncodeStream, VideoSegment, segment_of, send_video, barrier}

-- What is used of the arithmetic and the order of rationals.
pub record OrderLaws (R : Rational) : Type 0 where
  pub plus-minus : (a b : R.Q) → R.plus b (R.minus a b) ≡ a
  pub asym : (a b : R.Q) → R.less a b ≡ true → R.less b a ≡ false
  pub antisym : (a b : R.Q) → R.less a b ≡ false → R.less b a ≡ false → a ≡ b

module _ {R : Rational} where
  unfoldable pub later : MediaTime R → MediaTime R → MediaTime R
  later t u = if before t u then u else t

  -- The latest of a time and others.
  abbrev pub latest : MediaTime R → List (MediaTime R) → MediaTime R
  latest t [] = t
  latest t (u ∷ times) = latest (later t u) times

module _ (R : Rational) (C : Codecs) where
  -- A call that concerns the pictures.
  pub data VideoCall : Type 0 where
    send : MediaTime R → MediaDuration R → C.Frame → VideoCall
    wait : MediaTime R → VideoCall

module _ {R : Rational} {C : Codecs} where
  abbrev pub call : EncodeStream R C → VideoCall R C → EncodeStream R C
  call s (send timestamp duration_hint frame) = send_video s timestamp duration_hint frame
  call s (wait timestamp) = barrier s timestamp

  abbrev pub run_calls : EncodeStream R C → List (VideoCall R C) → EncodeStream R C
  run_calls s [] = s
  run_calls s (c ∷ calls) = run_calls (call s c) calls

  -- Where the picture of a call ends, or the time that it waits for.
  abbrev pub until : VideoCall R C → MediaTime R
  until (send timestamp duration_hint frame) = after timestamp duration_hint
  until (wait timestamp) = timestamp

module _ {R : Rational} (laws : OrderLaws R) where
  pub after-since : (t u : MediaTime R) → after u (since t u) ≡ t
  unfolding after since
  after-since t u = ap (λ q. record { value = q }) (laws.plus-minus t.value u.value)

  -- When a picture does not end before `t`, the later of the two is its end.
  pub later_end : (t end : MediaTime R) → before end t ≡ false → later t end ≡ end
  unfolding later before
  later_end t end e = elim (Bool-cases (R.less t.value end.value)) [
    | inl lt ↦ rw (lt) refl
    | inr ge ↦ rw (ge) (ap (λ q. record { value = q }) (laws.antisym t.value end.value ge e))
  ]

  pub later_start : (t end : MediaTime R) → before end t ≡ true → later t end ≡ t
  unfolding later before
  later_start t end e = rw (later, before, laws.asym end.value t.value e) refl

-- A picture that is encoded, with the time from which it is shown and the time at which it ends.
module _ (R : Rational) (C : Codecs) where
  pub record Shown : Type 0 where
    pub frame : C.Frame
    pub start : MediaTime R
    pub end : MediaTime R

module _ {R : Rational} {C : Codecs} where
  -- Each picture is shown from where the one before it ended.
  abbrev pub Chain : MediaTime R → List (Shown R C) → MediaTime R → Type 0
  Chain start [] end = start ≡ end
  Chain start (p ∷ rest) end = (p.start ≡ start) × Chain p.end rest end

  -- The frames to encode from a time on: the pictures that do not end before the time reached, and a
  -- blank one where that lies before a barrier.
  abbrev pub frames_from : MediaTime R → C.Frame → List (VideoCall R C) → List C.Frame
  frames_from t blank [] = []
  frames_from t blank (send timestamp hint frame ∷ calls) =
      let end = after timestamp hint in
      let rest = frames_from (later t end) blank calls in
      if before end t then rest else frame ∷ rest
  frames_from t blank (wait u ∷ calls) =
      let rest = frames_from (later t u) blank calls in if before t u then blank ∷ rest else rest

  -- The encoder called with the pictures in turn, each at its start in the encoder's base: the
  -- segments that its packets make, with the length of the picture in that base.
  abbrev pub encode_all : ℤ → C.VideoCodec → List (Shown R C) → List (VideoSegment R) × C.VideoCodec
  encode_all base codec [] = ([], codec)
  encode_all base codec (p ∷ rest) =
      let start = round_to_base p.start base in
      let (packets, codec') = C.recv_packets (C.send_frame codec p.frame start) in
      let (segments, end) = encode_all base codec' rest in
      (map (segment_of base (round_to_base p.end base -ℤ start)) packets ++ segments, end)

  -- What became of a stream, by the pictures that were encoded since.
  abbrev pub Encoded : EncodeStream R C → List (Shown R C) → EncodeStream R C → Type 0
  Encoded s pictures t =
      let made = encode_all s.video_ctx.time_base s.video_ctx.codec pictures in
      Chain s.video_timestamp pictures t.video_timestamp
      × (t.video_segments ≡ s.video_segments ++ made.0)
      × (t.video_ctx ≡ record s.video_ctx { codec = made.1 })

  -- The pictures of some calls, by the frames that they have.
  abbrev pub Pictures : EncodeStream R C → List C.Frame → EncodeStream R C → Type 0
  Pictures s frames end =
      (pictures : List (Shown R C)) × Encoded s pictures end
      × (map (λ (p : Shown R C). p.frame) pictures ≡ frames)
