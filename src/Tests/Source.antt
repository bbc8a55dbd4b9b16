-- ===== src/Tests/Source.antt =====
-- Channels of src/source.rs over a ring buffer that is a list with a bound.
use mixlab.Prelude.{
  ap, ℕ_discrete, false, ℕ, ◌+◌, ◌≡◌, ◌≢◌, refl, List, [], ◌∷◌, ◌++◌, map, length, Option, none,
  some, arith, ltb, lt→ltb, if◌then◌else◌,
}
use mixlab.Prelude.Map.{get, insert}
use mixlab.Prelude.Result.{ok, err}
use mixlab.Source.{
  RingBuffer, RingLaws, Media, Store, SourceSend, SourceRecv, TxPair, already_connected, listen,
  connect, drop_send, drop_recv, address_key, new_source, opened,
}
use mixlab.Source.Stream.{write_all, read_all, frame_of, frames_arrive}
use mixlab.Source.Senders.{one_sender, stale_drop}

abbrev list_pop : {A : Type 0} → ℕ × List A → Option (A × (ℕ × List A))
list_pop (n, []) = none
list_pop (n, a ∷ l) = some (a, (n, l))

abbrev list_ring : RingBuffer
list_ring = record {
  Ring = λ A. ℕ × List A;
  new = λ n. (n, []);
  push = λ a r. if ltb (length r.1) r.0 then some (r.0, r.1 ++ a ∷ []) else none;
  pop = list_pop;
}

list_ring_laws : RingLaws list_ring
list_ring_laws = record {
  contents = λ r. r.1;
  capacity = λ r. r.0;
  new_contents = λ n. refl;
  new_capacity = λ n. refl;
  pushed = λ a r h. ((r.0, r.1 ++ a ∷ []), rw (lt→ltb _ _ h), refl, refl);
  popped = λ a rest r h. ((r.0, rest), ap (λ l. list_pop (r.0, l)) h, refl, refl);
  drained = λ r h. ap (λ l. list_pop (r.0, l)) h;
}

abbrev numbers : Media
numbers = record { ring = list_ring; Name = ℕ; Time = ℕ; Audio = ℕ; Video = ℕ }

abbrev no_channels : Store numbers
no_channels = record {
  channels = [];
  shareds = λ i. record { channel_name = 0; recv_online = false };
  audio_rings = λ i. (0, []);
  video_rings = λ i. (0, []);
  fresh = 0;
}

frames_arrive_example :
    (recv : SourceRecv) × (s1 : Store numbers) × (send : SourceSend) × (s2 : Store numbers)
    × (s3 : Store numbers) × (listen 5 no_channels ≡ ok (recv, s1))
    × (connect 5 s1 ≡ some (ok send, s2))
    × (write_all send ((1, 10) ∷ (2, 20) ∷ []) s2 ≡ some s3)
    × (read_all 3 recv s3
        ≡ map some (map (frame_of send.source_id) ((1, 10) ∷ (2, 20) ∷ [])) ++ none ∷ [])
unfolding get
frames_arrive_example =
    frames_arrive list_ring_laws 5 no_channels ((1, 10) ∷ (2, 20) ∷ []) refl (omega arith)

abbrev listened : Store numbers
listened = opened 5 no_channels

one_sender_example :
    (send : SourceSend) × (s1 : Store numbers) × (s2 : Store numbers) × (later : SourceSend)
    × (s3 : Store numbers) × (connect 5 listened ≡ some (ok send, s1))
    × (connect 5 s1 ≡ some (err already_connected, s2))
    × (connect 5 (drop_send send s2) ≡ some (ok later, s3))
    × (later.tx ≡ send.tx)
    × (send.source_id + 2 ≡ later.source_id)
unfolding get insert ℕ_discrete
one_sender_example =
    one_sender 5 (new_source 0) (record { audio = 0; video = 0 }) listened refl refl refl
      (omega arith)

stale_drop_example :
    (recv : SourceRecv) × (s1 : Store numbers) × (send : SourceSend) × (s2 : Store numbers)
    × (recv' : SourceRecv) × (s3 : Store numbers) × (later : SourceSend) × (s4 : Store numbers)
    × (tx : TxPair) × (listen 5 no_channels ≡ ok (recv, s1))
    × (connect 5 s1 ≡ some (ok send, s2))
    × (listen 5 (drop_recv recv s2) ≡ ok (recv', s3))
    × (connect 5 (drop_send send s3) ≡ some (ok later, s4))
    × (later.tx ≡ some tx)
    × (tx.audio ≢ recv'.audio_rx)
    × (tx.video ≢ recv'.video_rx)
unfolding get
stale_drop_example = stale_drop 5 no_channels refl
