-- ===== src/Video/Pictures.antt =====
-- The pictures that src/video/encode.rs has encoded, over several runs of calls.
use mathlib.Core.List.{append_assoc}
use mixlab.Prelude.{
  ◌≡◌, refl, sym, ap, ap₂, subst, ◌∙◌, Bool-cases, inl, inr, List, [], ◌∷◌, ◌++◌, map,
}
use mixlab.Prelude.Lists.{map-append}
use mixlab.Prelude.Int.{ℤ, ◌-ℤ◌}
use mixlab.Media.{Rational, MediaTime, after, before, round_to_base}
use mixlab.Video.{Codecs, EncodeStream, VideoCtx, StreamSegment, segment_of}
use mixlab.Video.Calls.{
  VideoCall, send, wait, later, latest, until, Shown, Chain, frames_from, encode_all, Pictures,
}
use mixlab.Video.Merge.{video_of}

module _ {R : Rational} where
  pub video_of-append :
      (xs ys : List (StreamSegment R)) → video_of (xs ++ ys) ≡ video_of xs ++ video_of ys
  video_of-append [] ys = refl
  video_of-append (StreamSegment.audio a ∷ xs) ys = video_of-append xs ys
  video_of-append (StreamSegment.video v ∷ xs) ys = ap (λ r. v ∷ r) (video_of-append xs ys)

module _ {R : Rational} {C : Codecs} where
  Chain-append :
      (a b c : MediaTime R) (ps qs : List (Shown R C))
      → Chain a ps b
      → Chain b qs c
      → Chain a (ps ++ qs) c
  Chain-append a b c [] qs h k = subst (λ x. Chain x qs c) (sym h) k
  Chain-append a b c (p ∷ ps) qs (h, hs) k = (h, Chain-append p.end b c ps qs hs k)

  encode_all-append :
      (base : ℤ) (codec : C.VideoCodec) (ps qs : List (Shown R C))
      → ((encode_all base codec (ps ++ qs)).0
          ≡ (encode_all base codec ps).0 ++ (encode_all base (encode_all base codec ps).1 qs).0)
        × ((encode_all base codec (ps ++ qs)).1
            ≡ (encode_all base (encode_all base codec ps).1 qs).1)
  encode_all-append base codec [] qs = (refl, refl)
  encode_all-append base codec (p ∷ ps) qs =
      let start = round_to_base p.start base in
      let (packets, codec') = C.recv_packets (C.send_frame codec p.frame start) in
      let (e, e') = encode_all-append base codec' ps qs in
      (
        ap (λ r. map (segment_of base (round_to_base p.end base -ℤ start)) packets ++ r) e
            ∙ sym (append_assoc _ (encode_all base codec' ps).0 _),
        e',
      )

  pub frames_from-append :
      (t : MediaTime R) (blank : C.Frame) (calls more : List (VideoCall R C))
      → frames_from t blank (calls ++ more)
        ≡ frames_from t blank calls ++ frames_from (latest t (map until calls)) blank more
  frames_from-append t blank [] more = refl
  frames_from-append t blank (send timestamp hint frame ∷ calls) more =
      let end = after timestamp hint in
      let rest = frames_from-append (later t end) blank calls more in
      elim (Bool-cases (before end t)) [
        | inl e ↦ rw (e) rest
        | inr e ↦ rw (e) (ap (λ r. frame ∷ r) rest)
      ]
  frames_from-append t blank (wait u ∷ calls) more =
      let rest = frames_from-append (later t u) blank calls more in
      elim (Bool-cases (before t u)) [
        | inl e ↦ rw (e) (ap (λ r. blank ∷ r) rest)
        | inr e ↦ rw (e) rest
      ]

  -- Two streams that agree on the pictures.
  abbrev pub SameVideo : EncodeStream R C → EncodeStream R C → Type 0
  SameVideo s t =
      (t.video_segments ≡ s.video_segments)
      × (t.video_timestamp ≡ s.video_timestamp)
      × (t.video_ctx ≡ s.video_ctx)

  pub Pictures-same :
      (s s' t t' : EncodeStream R C) (frames : List C.Frame)
      → SameVideo s s'
      → SameVideo t t'
      → Pictures s frames t
      → Pictures s' frames t'
  Pictures-same s s' t t' frames (es, ts, cs) (et, tt', ct) (ps, (chain, queued, ctx), same) = (
    ps,
    (
      subst (λ x. Chain x ps t'.video_timestamp) (sym ts)
          (subst (λ x. Chain s.video_timestamp ps x) (sym tt') chain),
      et
          ∙ (queued
              ∙ sym
                  (ap₂ (λ x (c : VideoCtx R C). x ++ (encode_all c.time_base c.codec ps).0) es cs)),
      ct
          ∙ (ctx
              ∙ sym (
                  ap
                    (λ (c : VideoCtx R C). record c {
                      codec = (encode_all c.time_base c.codec ps).1;
                    })
                    cs)),
    ),
    same,
  )

  -- The stream before segments were taken from it.
  abbrev pub untaken : List (StreamSegment R) → EncodeStream R C → EncodeStream R C
  untaken out s = record s { video_segments = video_of out ++ s.video_segments }

  pub Pictures-then :
      (s t u : EncodeStream R C) (out out' : List (StreamSegment R)) (frames frames' : List C.Frame)
      → Pictures s frames (untaken out t)
      → Pictures t frames' (untaken out' u)
      → Pictures s (frames ++ frames') (untaken (out ++ out') u)
  Pictures-then s t u out out' frames frames' (ps, (chain, queued, ctx), same)
        (qs, (chain', queued', ctx'), same') =
      let base = s.video_ctx.time_base in
      let made = encode_all base s.video_ctx.codec ps in
      let (e, e') = encode_all-append base s.video_ctx.codec ps qs in
      (
        ps ++ qs,
        (
          Chain-append s.video_timestamp t.video_timestamp u.video_timestamp ps qs chain chain',
          ap (λ r. r ++ u.video_segments) (video_of-append out out')
              ∙ (append_assoc (video_of out) (video_of out') u.video_segments
                  ∙ (ap (λ r. video_of out ++ r) queued'
                      ∙ (sym (append_assoc (video_of out) t.video_segments _)
                          ∙ (ap₂
                                (λ x (c : VideoCtx R C). x ++ (encode_all c.time_base c.codec qs).0)
                                queued ctx
                              ∙ (append_assoc s.video_segments made.0 _
                                  ∙ ap (λ r. s.video_segments ++ r) (sym e)))))),
          ctx'
              ∙ (ap
                    (λ (c : VideoCtx R C). record c {
                      codec = (encode_all c.time_base c.codec qs).1;
                    })
                    ctx
                  ∙ ap (λ x. record s.video_ctx { codec = x }) (sym e')),
        ),
        map-append (λ (p : Shown R C). p.frame) ps qs ∙ ap₂ (λ x y. x ++ y) same same',
      )
