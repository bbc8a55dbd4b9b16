-- ===== src/Video/Audio.antt =====
-- The sound that src/video/encode.rs gives to its encoder.
use mathlib.Core.List.{append-nil, append_assoc}
use mixlab.Prelude.{
  ℕ, ◌+◌, ◌≡◌, ◌≤◌, ◌<◌, refl, sym, ap, ap₂, ◌∙◌, List, [], ◌∷◌, ◌++◌, map, lt→ltb, not_lt→ltb,
  arith, dec_lt,
}
use mixlab.Prelude.Lists.{
  length, take, drop, All, All-append, append-take-drop, length-take, map-append, length-append,
  length-drop, length-map,
}
use mixlab.Media.{Rational}
use mixlab.Video.{
  Codecs, EncodeStream, AudioCtx, AudioSegment, audio_frame_sample_count, encode_frame,
  send_samples, send_audio, queue_audio,
}

abbrev pub concat {ℓ} : {A : Type ℓ} → List (List A) → List A
concat [] = []
concat (xs ∷ rest) = xs ++ concat rest

pub concat-append {ℓ} :
    {A : Type ℓ} (xs ys : List (List A)) → concat (xs ++ ys) ≡ concat xs ++ concat ys
concat-append [] ys = refl
concat-append (x ∷ xs) ys =
    ap (λ r. x ++ r) (concat-append xs ys) ∙ sym (append_assoc x (concat xs) (concat ys))

module _ (C : Codecs) where
  -- The encoder called on one frame after the other.
  abbrev pub encoded : C.AudioCodec → List (List C.Pcm) → List (List ℕ) × C.AudioCodec
  encoded codec [] = ([], codec)
  encoded codec (pcm ∷ rest) =
      let (bytes, codec') = C.encode codec pcm in
      let (frames, end) = encoded codec' rest in (bytes ∷ frames, end)

  encoded-append :
      (codec : C.AudioCodec) (xs ys : List (List C.Pcm))
      → ((encoded codec (xs ++ ys)).0 ≡ (encoded codec xs).0 ++ (encoded (encoded codec xs).1 ys).0)
        × ((encoded codec (xs ++ ys)).1 ≡ (encoded (encoded codec xs).1 ys).1)
  encoded-append codec [] ys = (refl, refl)
  encoded-append codec (x ∷ xs) ys =
      let (e, e') = encoded-append (C.encode codec x).1 xs ys in
      (ap (λ r. (C.encode codec x).0 ∷ r) e, e')

module _ {R : Rational} {C : Codecs} where
  -- The state before and after, the samples sent and the encoded frames taken from the queue in
  -- between: there are frames that were given to the encoder.
  abbrev pub Encodes : EncodeStream R C → List C.Pcm → List (List ℕ) → EncodeStream R C → Type 0
  Encodes s sent out end =
      (frames : List (List C.Pcm)) × (s.audio_ctx.pcm_buff ++ sent
        ≡ concat frames ++ end.audio_ctx.pcm_buff)
      × All (λ (pcm : List C.Pcm). length pcm ≡ audio_frame_sample_count) frames
      × (out ++ map (λ (a : AudioSegment R). a.frame) end.audio_segments
          ≡ map (λ (a : AudioSegment R). a.frame) s.audio_segments
            ++ (encoded C s.audio_ctx.codec frames).0)
      × (end.audio_ctx.codec ≡ (encoded C s.audio_ctx.codec frames).1)

  filled : AudioCtx R C → List C.Sample → List C.Pcm
  filled ctx samples = ctx.pcm_buff ++ map C.convert samples

  length-filled :
      (ctx : AudioCtx R C) (samples : List C.Sample)
      → length (filled ctx samples) ≡ length ctx.pcm_buff + length samples
  unfolding filled
  length-filled ctx samples =
      omega
        (arith, length-append ctx.pcm_buff (map C.convert samples), length-map C.convert samples)

  send_audio_full :
      (s : EncodeStream R C) (samples : List C.Sample)
      → audio_frame_sample_count < length (filled s.audio_ctx samples)
      → Encodes s (map C.convert samples) [] (send_audio s samples)
        × ((send_audio s samples).audio_ctx.pcm_buff
            ≡ drop audio_frame_sample_count (filled s.audio_ctx samples))
  unfolding send_audio send_samples encode_frame queue_audio filled
  send_audio_full s samples h =
      rw
        (lt→ltb audio_frame_sample_count (length (s.audio_ctx.pcm_buff ++ map C.convert samples)) h)
        (
          (let rest =
                drop audio_frame_sample_count (s.audio_ctx.pcm_buff ++ map C.convert samples) in
              let frame =
                take audio_frame_sample_count (s.audio_ctx.pcm_buff ++ map C.convert samples) in
              (
                frame ∷ [],
                sym (
                      append-take-drop audio_frame_sample_count
                        (s.audio_ctx.pcm_buff ++ map C.convert samples))
                    ∙ ap (λ xs. xs ++ rest) (sym (append-nil frame)),
                (
                  length-take audio_frame_sample_count
                      (s.audio_ctx.pcm_buff ++ map C.convert samples) (omega (arith, h)),
                  tt,
                ),
                map-append (λ (a : AudioSegment R). a.frame) s.audio_segments _,
                refl,
              )),
          refl,
        )

  send_audio_short :
      (s : EncodeStream R C) (samples : List C.Sample)
      → length (filled s.audio_ctx samples) ≤ audio_frame_sample_count
      → Encodes s (map C.convert samples) [] (send_audio s samples)
        × ((send_audio s samples).audio_ctx.pcm_buff ≡ filled s.audio_ctx samples)
  unfolding send_audio send_samples queue_audio filled
  send_audio_short s samples h =
      rw
        (not_lt→ltb audio_frame_sample_count
          (length (s.audio_ctx.pcm_buff ++ map C.convert samples)) h)
        (
          (
            [],
            refl,
            tt,
            sym (append-nil (map (λ (a : AudioSegment R). a.frame) s.audio_segments)),
            refl,
          ),
          refl,
        )

  pub Encodes-then :
      (s t u : EncodeStream R C) (sent sent' : List C.Pcm) (out out' : List (List ℕ))
      → Encodes s sent out t
      → Encodes t sent' out' u
      → Encodes s (sent ++ sent') (out ++ out') u
  Encodes-then s t u sent sent' out out' (frames, kept, sized, queued, codec)
        (frames', kept', sized', queued', codec') =
      (
        frames ++ frames',
        sym (append_assoc s.audio_ctx.pcm_buff sent sent')
            ∙ (ap (λ r. r ++ sent') kept
                ∙ (append_assoc (concat frames) t.audio_ctx.pcm_buff sent'
                    ∙ (ap (λ r. concat frames ++ r) kept'
                        ∙ (sym (append_assoc (concat frames) (concat frames') u.audio_ctx.pcm_buff)
                            ∙ ap (λ r. r ++ u.audio_ctx.pcm_buff)
                                (sym (concat-append frames frames')))))),
        All-append (λ (pcm : List C.Pcm). length pcm ≡ audio_frame_sample_count) frames frames'
            sized sized',
        append_assoc out out' _
            ∙ (ap (λ r. out ++ r) queued'
                ∙ (sym (append_assoc out _ _)
                    ∙ (ap₂ (λ x y. x ++ y) queued (ap (λ c. (encoded C c frames').0) codec)
                        ∙ (append_assoc (map (λ (a : AudioSegment R). a.frame) s.audio_segments)
                              (encoded C s.audio_ctx.codec frames).0 _
                            ∙ ap (λ r. map (λ (a : AudioSegment R). a.frame) s.audio_segments ++ r)
                                (sym (encoded-append C s.audio_ctx.codec frames frames').0))))),
        codec'
            ∙ (ap (λ c. (encoded C c frames').1) codec
                ∙ sym (encoded-append C s.audio_ctx.codec frames frames').1),
      )

  -- The buffer holds at most one frame.
  abbrev pub IsBounded : EncodeStream R C → Type 0
  IsBounded s = length s.audio_ctx.pcm_buff ≤ audio_frame_sample_count

  pub send_audio-IsBounded :
      (s : EncodeStream R C) (samples : List C.Sample)
      → IsBounded s
      → length samples ≤ audio_frame_sample_count
      → Encodes s (map C.convert samples) [] (send_audio s samples)
        × IsBounded (send_audio s samples)
  send_audio-IsBounded s samples h k =
      let size = length-filled s.audio_ctx samples in
      elim (dec_lt audio_frame_sample_count (length (filled s.audio_ctx samples))) [
        | yes more ↦
            let (encodes, e) = send_audio_full s samples more in
            let left = length-drop audio_frame_sample_count (filled s.audio_ctx samples) in
            (encodes, rw (e) (omega (arith, left, size, h, k)))
        | no enough ↦
            let (encodes, e) = send_audio_short s samples (omega arith) in
            (encodes, rw (e) (omega arith))
      ]
