-- ===== src/Video/Merge.antt =====
-- The segments of src/video/encode.rs as they are received: the merge of its two queues.
use mixlab.Prelude.{
  ℕ, zero, suc, ◌+◌, ◌≡◌, ◌≤◌, refl, ap, true, false, List, [], ◌∷◌, ◌++◌, none, some, Bool-cases,
  arith, ◌⊎◌, inl, inr,
}
use mixlab.Prelude.Lists.{length}
use mixlab.Media.{Rational, MediaTime, before}
use mixlab.Video.{
  Codecs, EncodeStream, AudioSegment, VideoSegment, StreamSegment, audio, video, next_segment,
  recv_segment,
}

module _ {R : Rational} {C : Codecs} where
  -- `while let Some(segment) = encode.recv_segment()`
  unfoldable pub recv_all : ℕ → EncodeStream R C → List (StreamSegment R) × EncodeStream R C
  recv_all zero s = ([], s)
  recv_all (suc fuel) s = elim (recv_segment s) [
    | none ↦ ([], s)
    | some (segment, s') ↦ let (segments, end) = recv_all fuel s' in (segment ∷ segments, end)
  ]

module _ {R : Rational} where
  -- The merge by recursion on the two queues, which stops when one of them holds a single segment.
  abbrev pub merged :
      List (AudioSegment R)
      → List (VideoSegment R)
      → List (StreamSegment R) × List (AudioSegment R) × List (VideoSegment R)
  merged [] videos = ([], [], videos)
  merged (a ∷ []) videos = ([], a ∷ [], videos)
  merged (a ∷ a' ∷ audios) [] = ([], a ∷ a' ∷ audios, [])
  merged (a ∷ a' ∷ audios) (v ∷ []) = ([], a ∷ a' ∷ audios, v ∷ [])
  merged (a ∷ a' ∷ audios) (v ∷ v' ∷ videos) = elim (before a.decode_timestamp v.decode_timestamp) [
    | true ↦
        let (rest, audios', videos') = merged (a' ∷ audios) (v ∷ v' ∷ videos) in
        (audio a ∷ rest, audios', videos')
    | false ↦
        let (rest, audios', videos') = merged (a ∷ a' ∷ audios) (v' ∷ videos) in
        (video v ∷ rest, audios', videos')
  ]

  abbrev pub audio_of : List (StreamSegment R) → List (AudioSegment R)
  audio_of [] = []
  audio_of (audio a ∷ rest) = a ∷ audio_of rest
  audio_of (video v ∷ rest) = audio_of rest

  abbrev pub video_of : List (StreamSegment R) → List (VideoSegment R)
  video_of [] = []
  video_of (audio a ∷ rest) = video_of rest
  video_of (video v ∷ rest) = v ∷ video_of rest

  abbrev pub stamp : StreamSegment R → MediaTime R
  stamp (audio a) = a.decode_timestamp
  stamp (video v) = v.decode_timestamp

  -- The time does not come before the first of the list.
  abbrev pub Starts {ℓ} : {A : Type ℓ} → (A → MediaTime R) → MediaTime R → List A → Type 0
  Starts f t [] = Unit {0}
  Starts f t (x ∷ xs) = before (f x) t ≡ false

  -- No item's time is before that of the item in front of it.
  abbrev pub InOrder {ℓ} : {A : Type ℓ} → (A → MediaTime R) → List A → Type 0
  InOrder f [] = Unit {0}
  InOrder f (x ∷ xs) = Starts f (f x) xs × InOrder f xs

  abbrev pub HoldsOne : List (AudioSegment R) → List (VideoSegment R) → Type 0
  HoldsOne audios videos = (length audios ≤ 1) ⊎ (length videos ≤ 1)

module _ {R : Rational} (a a' : AudioSegment R) (v v' : VideoSegment R)
    (audios : List (AudioSegment R)) (videos : List (VideoSegment R)) where
  merged_audio :
      before a.decode_timestamp v.decode_timestamp ≡ true
      → merged (a ∷ a' ∷ audios) (v ∷ v' ∷ videos) ≡ (
        audio a ∷ (merged (a' ∷ audios) (v ∷ v' ∷ videos)).0,
        (merged (a' ∷ audios) (v ∷ v' ∷ videos)).1,
        (merged (a' ∷ audios) (v ∷ v' ∷ videos)).2,
      )
  merged_audio e = rw (merged, e)

  merged_video :
      before a.decode_timestamp v.decode_timestamp ≡ false
      → merged (a ∷ a' ∷ audios) (v ∷ v' ∷ videos) ≡ (
        video v ∷ (merged (a ∷ a' ∷ audios) (v' ∷ videos)).0,
        (merged (a ∷ a' ∷ audios) (v' ∷ videos)).1,
        (merged (a ∷ a' ∷ audios) (v' ∷ videos)).2,
      )
  merged_video e = rw (merged, e)

module _ {R : Rational} {C : Codecs} where
  abbrev pub with_queues :
      EncodeStream R C → List (AudioSegment R) → List (VideoSegment R) → EncodeStream R C
  with_queues s audios videos = record s { audio_segments = audios; video_segments = videos }

  -- The stream with the merge of two queues taken out.
  abbrev pub taken :
      EncodeStream R C
      → List (AudioSegment R)
      → List (VideoSegment R)
      → List (StreamSegment R) × EncodeStream R C
  taken s audios videos =
      let (out, audios', videos') = merged audios videos in (out, with_queues s audios' videos')

  recv_queues :
      (fuel : ℕ) (s : EncodeStream R C) (audios : List (AudioSegment R))
      (videos : List (VideoSegment R))
      → length audios + length videos ≤ fuel
      → recv_all fuel (with_queues s audios videos) ≡ taken s audios videos
  unfolding recv_all recv_segment next_segment
  recv_queues zero s [] videos h = refl
  recv_queues (suc fuel) s [] videos h = refl
  recv_queues zero s (a ∷ audios) videos h = absurd (omega arith)
  recv_queues (suc fuel) s (a ∷ []) videos h = refl
  recv_queues (suc fuel) s (a ∷ a' ∷ audios) [] h = refl
  recv_queues (suc fuel) s (a ∷ a' ∷ audios) (v ∷ []) h = refl
  recv_queues (suc fuel) s (a ∷ a' ∷ audios) (v ∷ v' ∷ videos) h =
      elim (Bool-cases (before a.decode_timestamp v.decode_timestamp)) [
        | inl e ↦ rw (
          merged_audio a a' v v' audios videos e,
          recv_all,
          e,
          recv_queues fuel s (a' ∷ audios) (v ∷ v' ∷ videos) (omega arith),
        )
        | inr e ↦ rw (
          merged_video a a' v v' audios videos e,
          recv_all,
          e,
          recv_queues fuel s (a ∷ a' ∷ audios) (v' ∷ videos) (omega arith),
        )
      ]

  pub recv_all-merged :
      (fuel : ℕ) (s : EncodeStream R C)
      → length s.audio_segments + length s.video_segments ≤ fuel
      → recv_all fuel s ≡ taken s s.audio_segments s.video_segments
  recv_all-merged fuel s h = recv_queues fuel s s.audio_segments s.video_segments h

module _ {R : Rational} where
  -- Nothing is lost, and each queue is received in its order.
  pub merged_kept :
      (audios : List (AudioSegment R)) (videos : List (VideoSegment R))
      → (audio_of (merged audios videos).0 ++ (merged audios videos).1 ≡ audios)
        × (video_of (merged audios videos).0 ++ (merged audios videos).2 ≡ videos)
  merged_kept [] videos = (refl, refl)
  merged_kept (a ∷ []) videos = (refl, refl)
  merged_kept (a ∷ a' ∷ audios) [] = (refl, refl)
  merged_kept (a ∷ a' ∷ audios) (v ∷ []) = (refl, refl)
  merged_kept (a ∷ a' ∷ audios) (v ∷ v' ∷ videos) =
      elim (Bool-cases (before a.decode_timestamp v.decode_timestamp)) [
        | inl e ↦
            let (l, r) = merged_kept (a' ∷ audios) (v ∷ v' ∷ videos) in
            rw (merged_audio a a' v v' audios videos e) (ap (λ xs. a ∷ xs) l, r)
        | inr e ↦
            let (l, r) = merged_kept (a ∷ a' ∷ audios) (v' ∷ videos) in
            rw (merged_video a a' v v' audios videos e) (l, ap (λ xs. v ∷ xs) r)
      ]

  pub merged-HoldsOne :
      (audios : List (AudioSegment R)) (videos : List (VideoSegment R))
      → HoldsOne (merged audios videos).1 (merged audios videos).2
  merged-HoldsOne [] videos = inl (omega arith)
  merged-HoldsOne (a ∷ []) videos = inl (omega arith)
  merged-HoldsOne (a ∷ a' ∷ audios) [] = inr (omega arith)
  merged-HoldsOne (a ∷ a' ∷ audios) (v ∷ []) = inr (omega arith)
  merged-HoldsOne (a ∷ a' ∷ audios) (v ∷ v' ∷ videos) =
      elim (Bool-cases (before a.decode_timestamp v.decode_timestamp)) [
        | inl e ↦
            rw (merged_audio a a' v v' audios videos e)
              (merged-HoldsOne (a' ∷ audios) (v ∷ v' ∷ videos))
        | inr e ↦
            rw (merged_video a a' v v' audios videos e)
              (merged-HoldsOne (a ∷ a' ∷ audios) (v' ∷ videos))
      ]

-- `t` is not after the first of a list.
module _ {R : Rational} (asym : (x y : R.Q) → R.less x y ≡ true → R.less y x ≡ false) where
  -- What is received from two ordered queues is ordered, from `t` on, and so is what is left after it.
  abbrev pub Ordered :
      MediaTime R → List (StreamSegment R) → List (AudioSegment R) → List (VideoSegment R) → Type 0
  Ordered t [] audios videos =
      InOrder (λ (a : AudioSegment R). a.decode_timestamp) audios
      × InOrder (λ (v : VideoSegment R). v.decode_timestamp) videos
      × Starts (λ (a : AudioSegment R). a.decode_timestamp) t audios
      × Starts (λ (v : VideoSegment R). v.decode_timestamp) t videos
  Ordered t (s ∷ segments) audios videos =
      (before (stamp s) t ≡ false) × Ordered (stamp s) segments audios videos

  pub merged-Ordered :
      (t : MediaTime R) (audios : List (AudioSegment R)) (videos : List (VideoSegment R))
      → Ordered t [] audios videos
      → Ordered t (merged audios videos).0 (merged audios videos).1 (merged audios videos).2
  unfolding before
  merged-Ordered t [] videos h = h
  merged-Ordered t (a ∷ []) videos h = h
  merged-Ordered t (a ∷ a' ∷ audios) [] h = h
  merged-Ordered t (a ∷ a' ∷ audios) (v ∷ []) h = h
  merged-Ordered t (a ∷ a' ∷ audios) (v ∷ v' ∷ videos) ((oa, ia), (ov, iv), sa, sv) =
      elim (Bool-cases (before a.decode_timestamp v.decode_timestamp)) [
        | inl e ↦ rw (merged_audio a a' v v' audios videos e) (
          sa,
          merged-Ordered a.decode_timestamp (a' ∷ audios) (v ∷ v' ∷ videos)
              (ia, (ov, iv), oa, asym a.decode_timestamp.value v.decode_timestamp.value e),
        )
        | inr e ↦ rw (merged_video a a' v v' audios videos e) (
          sv,
          merged-Ordered v.decode_timestamp (a ∷ a' ∷ audios) (v' ∷ videos) ((oa, ia), iv, e, ov),
        )
      ]

module _ {R : Rational} {C : Codecs}
    (asym : (x y : R.Q) → R.less x y ≡ true → R.less y x ≡ false) where
  -- When the decode times of both queues go up, from `t` on, and the order of times is asymmetric,
  -- the loop that receives segments, with fuel for each queued segment, gives them with decode times
  -- that go up, from `t` on, and leaves queues that go up from there; each queue's segments are
  -- those received, in their order, and then those left; and at most one is left in one of them.
  pub received_in_order :
      (fuel : ℕ) (s : EncodeStream R C) (t : MediaTime R)
      → length s.audio_segments + length s.video_segments ≤ fuel
      → Ordered asym t [] s.audio_segments s.video_segments
      → let (out, end) = recv_all fuel s in
        Ordered asym t out end.audio_segments end.video_segments
        × (audio_of out ++ end.audio_segments ≡ s.audio_segments)
        × (video_of out ++ end.video_segments ≡ s.video_segments)
        × HoldsOne end.audio_segments end.video_segments
  received_in_order fuel s t h ordered = rw (recv_all-merged fuel s h) (
    merged-Ordered asym t s.audio_segments s.video_segments ordered,
    (merged_kept s.audio_segments s.video_segments).0,
    (merged_kept s.audio_segments s.video_segments).1,
    merged-HoldsOne s.audio_segments s.video_segments,
  )
