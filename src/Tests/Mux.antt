-- ===== src/Tests/Mux.antt =====
-- Two frames of sound and one picture in an MP4 stream.
use mixlab.Prelude.{ℕ, ◌≡◌, List, [], ◌∷◌, map, some, true, arith}
use mixlab.Media.{MediaDuration}
use mixlab.Mux.{Mp4Mux, TrackData, audio, video, MovieFragment, MediaSegment, new_mux}
use mixlab.Mux.Chain.{write_tracks, Starts, fragments_chain}
use mixlab.Tests.Media.{units, for_units}

abbrev box_size : MovieFragment → ℕ
box_size moof = 100

abbrev adts : ℕ → List ℕ
adts x = 255 ∷ 241 ∷ 80 ∷ 128 ∷ 1 ∷ 63 ∷ 252 ∷ x ∷ []

abbrev frames : List (MediaDuration units × TrackData units)
frames =
    (for_units 10240, audio (adts 1))
    ∷ (
      for_units 14700,
      video (record { is_key_frame = true; composition_time = for_units 0; bytes = 9 ∷ 9 ∷ [] }),
    )
    ∷ (for_units 10240, audio (adts 2))
    ∷ []

fragments_chain_example :
    (end : Mp4Mux units) × (segments : List MediaSegment) × (write_tracks box_size
        (new_mux units 44100)
        frames
      ≡ some (end, segments))
    × (map (λ (s : MediaSegment). s.mdat) segments ≡ (1 ∷ []) ∷ (9 ∷ 9 ∷ []) ∷ (2 ∷ []) ∷ [])
    × Starts (new_mux units 44100) segments end
fragments_chain_example =
    fragments_chain box_size (new_mux units 44100) frames (omega arith, (tt, (omega arith, tt)))
