-- ===== src/Rtmp/Receive/Sound.antt =====
-- The times that one packet of sound gets in src/rtmp/mod.rs.
use mathlib.Core.List.{append_assoc, append-nil}
use mixlab.Prelude.{
  ℕ, ◌==◌, ◌≡◌, refl, sym, ap, subst, ◌∙◌, List, [], ◌∷◌, ◌++◌, some, ltb, Bool-cases, Option-cases,
  inl, inr,
}
use mixlab.Prelude.Lists.{length}
use mixlab.Prelude.Result.{Result, ok, err, panic, ◌>>=◌}
use mixlab.Media.{Rational, MediaTime, MediaDuration, after}
use mixlab.Codec.Buf.{Buf, Bytes, or_panic}
use mixlab.Codec.Aac.{AacError, AudioSpecificConfiguration, parse_config, new_stream, into_bytes}
use mixlab.Rtmp.Packet.{AudioPacket, AudioPacketError, aac_sequence_header, aac_raw_data}
use mixlab.Rtmp.Receive.{
  Receiver, ReceiveContext, RtmpError, frame_time, write_frame, decode_audio, receive_raw,
  receive_packet, configured,
}

-- What was written to a sender: `write_audio` adds its frame, `write_video` changes nothing of it.
pub record SentLaws {R : Rational} (V : Receiver R) : Type 0 where
  pub log : V.SourceSend → List (MediaTime R × List V.Pcm)
  pub wrote :
      (s : V.SourceSend) (t : MediaTime R) (pcm : List V.Pcm) {s' : V.SourceSend}
      → V.write_audio s t pcm ≡ some s'
      → log s' ≡ log s ++ (t, pcm) ∷ []
  pub showed :
      (s : V.SourceSend) (t : MediaTime R) (picture : V.Picture) (d : MediaDuration R)
      → log (V.write_video s t picture d) ≡ log s

-- Each frame starts where the one before it ends.
module _ {R : Rational} {A : Type 0} where
  abbrev pub Chain : MediaTime R → List (MediaTime R × A) → MediaTime R → Type 0
  Chain t [] end = t ≡ end
  Chain t ((u, pcm) ∷ rest) end = (u ≡ t) × Chain (after t frame_time) rest end

  Chain-append :
      (t u v : MediaTime R) (xs ys : List (MediaTime R × A))
      → Chain t xs u
      → Chain u ys v
      → Chain t (xs ++ ys) v
  Chain-append t u v [] ys h k = subst (λ w. Chain w ys v) (sym h) k
  Chain-append t u v ((w, pcm) ∷ xs) ys (e, h) k =
      (e, Chain-append (after t frame_time) u v xs ys h k)

module _ {R : Rational} {V : Receiver R} (laws : SentLaws V) where
  -- The frames written in between, from the time of the context on.
  abbrev pub Advances : ReceiveContext V → ReceiveContext V → Type 0
  Advances ctx ctx' =
      (sent : List (MediaTime R × List V.Pcm)) × (laws.log ctx'.source
        ≡ laws.log ctx.source ++ sent)
      × Chain ctx.audio_timestamp sent ctx'.audio_timestamp

  pub unsent :
      (ctx ctx' : ReceiveContext V)
      → laws.log ctx'.source ≡ laws.log ctx.source
      → ctx'.audio_timestamp ≡ ctx.audio_timestamp
      → Advances ctx ctx'
  unsent ctx ctx' e t = ([], e ∙ sym (append-nil (laws.log ctx.source)), sym t)

  pub Advances-then : (a b c : ReceiveContext V) → Advances a b → Advances b c → Advances a c
  Advances-then a b c (xs, e, chain) (ys, e', chain') = (
    xs ++ ys,
    e' ∙ (ap (λ l. l ++ ys) e ∙ append_assoc (laws.log a.source) xs ys),
    Chain-append a.audio_timestamp b.audio_timestamp c.audio_timestamp xs ys chain chain',
  )

  -- A handler that gives back the context has advanced it.
  abbrev pub IsStep : ReceiveContext V → Result (RtmpError V) (ReceiveContext V) → Type 0
  IsStep ctx (ok ctx') = Advances ctx ctx'
  IsStep ctx (err e) = Unit {0}
  IsStep ctx panic = Unit {0}

  write_frame-IsStep :
      (ctx : ReceiveContext V) (pcm : List V.Pcm) → IsStep ctx (write_frame ctx pcm)
  unfolding write_frame
  write_frame-IsStep ctx pcm =
      elim (Option-cases (V.write_audio ctx.source ctx.audio_timestamp pcm)) [
        | inl e ↦ rw (write_frame, e) tt
        | inr (source, e) ↦
            rw (write_frame, e)
              (
                (ctx.audio_timestamp, pcm) ∷ [],
                laws.wrote ctx.source ctx.audio_timestamp pcm e,
                (refl, refl),
              )
      ]

  decode_audio-IsStep :
      (ctx : ReceiveContext V) (adts : Bytes) (filled : ℕ × V.AudioDecoder)
      → IsStep ctx (decode_audio ctx adts filled)
  unfolding decode_audio
  decode_audio-IsStep ctx adts (consumed, filled) =
      let (decoded, decoder) = V.decode_frame filled in
      elim (Bool-cases (ltb consumed (length adts))) [
        | inl short ↦
            rw (decode_audio, short) (unsent ctx (record ctx { audio_codec = filled }) refl refl)
        | inr whole ↦ elim (Option-cases decoded) [
          | inl e ↦
              rw (decode_audio, whole, e)
                (unsent ctx (record ctx { audio_codec = decoder }) refl refl)
          | inr (pcm, e) ↦ elim (Bool-cases (V.sample_rate decoder == 44100)) [
            | inl rate ↦
                rw (decode_audio, whole, e, rate)
                  (write_frame-IsStep (record ctx { audio_codec = decoder }) pcm)
            | inr other ↦ rw (decode_audio, whole, e, other) tt
          ]
        ]
      ]

  -- Handlers in a row.
  bind-IsStep {ℓ} :
      {A : Type ℓ} (ctx : ReceiveContext V) (first : Result (RtmpError V) A)
      (next : A → Result (RtmpError V) (ReceiveContext V))
      → ((a : A) → IsStep ctx (next a))
      → IsStep ctx (first >>= next)
  bind-IsStep ctx (ok a) next h = h a
  bind-IsStep ctx (err e) next h = tt
  bind-IsStep ctx panic next h = tt

  receive_raw-IsStep :
      (buf : Buf) (ctx : ReceiveContext V) (bytes : Bytes) → IsStep ctx (receive_raw buf ctx bytes)
  unfolding receive_raw
  receive_raw-IsStep buf ctx bytes = elim (Option-cases ctx.audio_asc) [
    | inl e ↦ rw (receive_raw, e) (unsent ctx ctx refl refl)
    | inr (asc, e) ↦
        rw (receive_raw, e)
          (bind-IsStep ctx (or_panic (new_stream bytes asc)) _ λ adts.
            bind-IsStep ctx (or_panic (into_bytes buf adts)) _ λ adts_bytes.
              bind-IsStep ctx (or_panic (V.fill ctx.audio_codec adts_bytes)) _
                (decode_audio-IsStep ctx adts_bytes))
  ]

  configured-IsStep :
      (ctx : ReceiveContext V) (parsed : Result AacError AudioSpecificConfiguration)
      → IsStep ctx (configured ctx parsed)
  unfolding configured
  configured-IsStep ctx (ok asc) = unsent ctx (record ctx { audio_asc = some asc }) refl refl
  configured-IsStep ctx (err e) = tt
  configured-IsStep ctx panic = tt

  pub receive_packet-IsStep :
      (buf : Buf) (ctx : ReceiveContext V) (packet : Result AudioPacketError AudioPacket)
      → IsStep ctx (receive_packet buf ctx packet)
  unfolding receive_packet
  receive_packet-IsStep buf ctx (ok (aac_sequence_header bytes)) =
      configured-IsStep ctx (parse_config buf bytes)
  receive_packet-IsStep buf ctx (ok (aac_raw_data bytes)) = receive_raw-IsStep buf ctx bytes
  receive_packet-IsStep buf ctx (err e) = unsent ctx ctx refl refl
  receive_packet-IsStep buf ctx panic = tt
