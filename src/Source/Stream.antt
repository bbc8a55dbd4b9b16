-- ===== src/Source/Stream.antt =====
-- A channel of src/source.rs from its listener's start on: what a sender writes, the receiver reads.
use mathlib.Core.List.{append_assoc, append-nil}
use mixlab.Prelude.{
  ◌^◌, lt→ltb, length-map, length-append, ℕ, zero, suc, ◌+◌, ◌≡◌, ◌≤◌, ◌<◌, refl, sym, ap, subst,
  ◌∙◌, List, [], ◌∷◌, ◌++◌, map, length, Option, none, some, true, arith,
}
use mixlab.Prelude.Map.{Key, get, insert, get_inserted}
use mixlab.Prelude.Result.{ok, err, panic}
use mixlab.Util.{next}
use mixlab.Source.{
  opened, new_source, new_recv, Media, Store, SourceShared, RingBuffer, RingLaws, Source, TxPair,
  SourceSend, SourceRecv, Frame, ring_size, listen, connect, connected, write_audio, read_audio,
  set, address_key,
}

abbrev pub frame_of : {Time Audio : Type 0} → ℕ → Time × Audio → Frame Time Audio
frame_of id (time, audio) = record { source_id = id; source_time = time; payload = audio }

pub set_here : {A : Type 0} (i : ℕ) (x : A) (f : ℕ → A) → set i x f i ≡ x
set_here i x f = ground arith

module _ {ring : RingBuffer} (laws : RingLaws ring) {A : Type 0} (i : ℕ) (f : ℕ → ring.Ring A) where
  open laws use {contents, capacity}

  empty_ring : contents (set i (ring.new ring_size) f i) ≡ []
  empty_ring = rw (set_here i (ring.new {A = A} ring_size) f) (laws.new_contents ring_size)

  full_room : capacity (set i (ring.new ring_size) f i) ≡ ring_size
  full_room = rw (set_here i (ring.new {A = A} ring_size) f) (laws.new_capacity ring_size)

module _ {media : Media} ⦃name_key : Key media.Name⦄ where
  open media use {ring, Name, Time, Audio}

  -- All frames in turn; `none` when one is refused.
  unfoldable pub write_all : SourceSend → List (Time × Audio) → Store media → Option (Store media)
  write_all send [] s = some s
  write_all send ((time, audio) ∷ rest) s = elim (write_audio send time audio s) [
    | none ↦ none
    | some (ok _, s') ↦ write_all send rest s'
    | some (err _, s') ↦ none
    | some (panic, s') ↦ none
  ]

  -- What a number of reads give.
  unfoldable pub read_all : ℕ → SourceRecv → Store media → List (Option (Frame Time Audio))
  read_all zero recv s = []
  read_all (suc n) recv s = let (frame, s') = read_audio recv s in frame ∷ read_all n recv s'

  pub listen_lem :
      (name : Name) (s : Store media)
      → get name s.channels ≡ none
      → listen name s ≡ ok (new_recv s.fresh, opened name s)
  unfolding listen
  listen_lem name s free = rw (listen, free)

  pub online :
      (name : Name) (s : Store media) → ((opened name s).shareds s.fresh).recv_online ≡ true
  online name s =
      rw
        (set_here {A = SourceShared media} s.fresh
          (record { channel_name = name; recv_online = true }) s.shareds)
        refl

  -- A channel whose producers are there gives them to the next sender.
  pub connect_lem :
      (name : Name) (c : Source) (tx : TxPair) (s : Store media)
      → get name s.channels ≡ some c
      → c.tx ≡ some tx
      → c.seq + 1 < 2 ^ 64
      → connect name s
        ≡ some (
          ok (record { shared = c.shared; source_id = c.seq + 1; tx = some tx }),
          record s { channels = insert name (record c { seq = c.seq + 1; tx = none }) s.channels },
        )
  unfolding connect next
  connect_lem name c tx s here free room = rw (connect, here, next, lt→ltb _ _ room, free)

  module _ (laws : RingLaws ring) where
    open laws use {contents, capacity}

    write_one :
        (send : SourceSend) (a v : ℕ) (s : Store media) (item : Time × Audio)
        → send.tx ≡ some (record { audio = a; video = v })
        → (s.shareds send.shared).recv_online ≡ true
        → length (contents (s.audio_rings a)) < capacity (s.audio_rings a)
        → (t : Store media) × (write_audio send item.0 item.1 s ≡ some (ok tt, t))
          × (contents (t.audio_rings a)
              ≡ contents (s.audio_rings a) ++ frame_of send.source_id item ∷ [])
          × (capacity (t.audio_rings a) ≡ capacity (s.audio_rings a))
          × (t.shareds ≡ s.shareds)
    unfolding write_audio connected
    write_one send a v s item tx on room =
        let (r, e, c, k) = laws.pushed (frame_of send.source_id item) (s.audio_rings a) room in
        (
          record s { audio_rings = set a r s.audio_rings },
          rw (write_audio, connected, on, tx, e),
          rw (set_here a r s.audio_rings) c,
          rw (set_here a r s.audio_rings) k,
          refl,
        )

    read_one :
        (recv : SourceRecv) (f : Frame Time Audio) (fs : List (Frame Time Audio)) (s : Store media)
        → contents (s.audio_rings recv.audio_rx) ≡ f ∷ fs
        → (t : Store media) × (read_audio recv s ≡ (some f, t))
          × (contents (t.audio_rings recv.audio_rx) ≡ fs)
    unfolding read_audio
    read_one recv f fs s h =
        let (r, e, c, _) = laws.popped f fs (s.audio_rings recv.audio_rx) h in
        (
          record s { audio_rings = set recv.audio_rx r s.audio_rings },
          rw (read_audio, e),
          rw (set_here recv.audio_rx r s.audio_rings) c,
        )

    write_all_lem :
        (send : SourceSend) (a v : ℕ) (s : Store media)
        → send.tx ≡ some (record { audio = a; video = v })
        → (s.shareds send.shared).recv_online ≡ true
        → (items : List (Time × Audio))
        → length (contents (s.audio_rings a)) + length items ≤ capacity (s.audio_rings a)
        → (t : Store media) × (write_all send items s ≡ some t)
          × (contents (t.audio_rings a)
              ≡ contents (s.audio_rings a) ++ map (frame_of send.source_id) items)
    unfolding write_all
    write_all_lem send a v s tx on [] le = (s, refl, sym (append-nil (contents (s.audio_rings a))))
    write_all_lem send a v s tx on ((time, audio) ∷ rest) le =
        let (t, e, c, k, same) = write_one send a v s (time, audio) tx on (omega arith) in
        let room : length (contents (t.audio_rings a)) + length rest ≤ capacity (t.audio_rings a) =
          omega (
            arith,
            k,
            ap length c,
            length-append (contents (s.audio_rings a)) (frame_of send.source_id (time, audio) ∷ []),
          ) in
        let (u, e', c') = write_all_lem send a v t tx (rw same on) rest room in
        (
          u,
          rw (write_all, e) e',
          c'
              ∙ (ap (λ l. l ++ map (frame_of send.source_id) rest) c
                  ∙ append_assoc (contents (s.audio_rings a))
                      (frame_of send.source_id (time, audio) ∷ [])
                      (map (frame_of send.source_id) rest)),
        )

    read_all_lem :
        (recv : SourceRecv) (frames : List (Frame Time Audio)) (s : Store media)
        → contents (s.audio_rings recv.audio_rx) ≡ frames
        → read_all (suc (length frames)) recv s ≡ map some frames ++ none ∷ []
    unfolding read_all read_audio
    read_all_lem recv [] s h = rw (read_audio, laws.drained (s.audio_rings recv.audio_rx) h)
    read_all_lem recv (f ∷ fs) s h =
        let (t, e, c) = read_one recv f fs s h in
        rw e (ap (λ l. some f ∷ l) (read_all_lem recv fs t c))

    -- On a name that no one listens on: a listener starts, a sender connects and writes frames, no more
    -- than fit in the buffer; all calls succeed, and the listener then reads these frames in order, with
    -- the sender's number, and no more.
    pub frames_arrive :
        (name : Name) (s : Store media) (items : List (Time × Audio))
        → get name s.channels ≡ none
        → length items ≤ ring_size
        → (recv : SourceRecv) × (s1 : Store media) × (send : SourceSend) × (s2 : Store media)
          × (s3 : Store media) × (listen name s ≡ ok (recv, s1))
          × (connect name s1 ≡ some (ok send, s2))
          × (write_all send items s2 ≡ some s3)
          × (read_all (suc (length items)) recv s3
              ≡ map some (map (frame_of send.source_id) items) ++ none ∷ [])
    frames_arrive name s items free le =
        let s1 : Store media = opened name s in
        let send : SourceSend = record {
          shared = s.fresh;
          source_id = 1;
          tx = some (record { audio = s.fresh; video = s.fresh });
        } in
        let s2 : Store media = record s1 {
          channels = insert name (record (new_source s.fresh) { seq = 1; tx = none }) s1.channels;
        } in
        let (s3, e, c) = write_all_lem send s.fresh s.fresh s2 refl (online name s) items (
          omega (
            arith,
            le,
            full_room laws s.fresh s.audio_rings,
            ap length (empty_ring laws s.fresh s.audio_rings),
          )) in
        (
          new_recv s.fresh,
          s1,
          send,
          s2,
          s3,
          listen_lem name s free,
          connect_lem name (new_source s.fresh) (record { audio = s.fresh; video = s.fresh }) s1
              (get_inserted name (new_source s.fresh) s.channels) refl (omega arith),
          e,
          subst
              (λ n.
                read_all (suc n) (new_recv s.fresh) s3
                ≡ map some (map (frame_of 1) items) ++ none ∷ [])
              (length-map (frame_of 1) items)
              (read_all_lem (new_recv s.fresh) (map (frame_of 1) items) s3 (
                c ∙ ap (λ l. l ++ map (frame_of 1) items) (empty_ring laws s.fresh s.audio_rings))),
        )
