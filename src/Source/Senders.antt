-- ===== src/Source/Senders.antt =====
-- One sender at a time on a channel of src/source.rs, and what its `drop` does.
use mixlab.Prelude.{◌+◌, ◌^◌, ◌≡◌, ◌≢◌, ◌<◌, refl, none, some, arith, lt→ltb}
use mixlab.Prelude.Map.{Key, get, insert, get_inserted, get-modify, get-remove}
use mixlab.Prelude.Result.{ok, err}
use mixlab.Util.{next}
use mixlab.Source.{
  Media, Store, Source, TxPair, SourceSend, SourceRecv, already_connected, opened, new_source,
  new_recv, listen, connect, drop_send, drop_recv,
}
use mixlab.Source.Stream.{listen_lem, connect_lem}

module _ {media : Media} ⦃name_key : Key media.Name⦄ where
  open media use {Name}

  refused_lem :
      (name : Name) (c : Source) (s : Store media)
      → get name s.channels ≡ some c
      → c.tx ≡ none
      → c.seq + 1 < 2 ^ 64
      → connect name s
        ≡ some (
          err already_connected,
          record s { channels = insert name (record c { seq = c.seq + 1 }) s.channels },
        )
  unfolding connect next
  refused_lem name c s here taken room = rw (connect, here, next, lt→ltb _ _ room, taken)

  drop_send_lem :
      (name : Name) (send : SourceSend) (c : Source) (s : Store media)
      → (s.shareds send.shared).channel_name ≡ name
      → get name s.channels ≡ some c
      → get name (drop_send send s).channels ≡ some (record c { tx = send.tx })
  unfolding drop_send
  drop_send_lem name send c s named here =
      rw (drop_send, named, get-modify name name (λ d. record d { tx = send.tx }) s.channels, here)
        (ground arith)

  drop_recv_lem :
      (name : Name) (recv : SourceRecv) (s : Store media)
      → (s.shareds recv.shared).channel_name ≡ name
      → get name (drop_recv recv s).channels ≡ none
  unfolding drop_recv
  drop_recv_lem name recv s named =
      rw (drop_recv, named, get-remove name name s.channels) (ground arith)

  -- While a sender has the producers of a channel, others are refused; when it is dropped, the next
  -- sender gets the producers, with a greater number than the two before it were given.
  pub one_sender :
      (name : Name) (c : Source) (tx : TxPair) (s : Store media)
      → get name s.channels ≡ some c
      → c.tx ≡ some tx
      → (s.shareds c.shared).channel_name ≡ name
      → c.seq + 3 < 2 ^ 64
      → (send : SourceSend) × (s1 : Store media) × (s2 : Store media) × (later : SourceSend)
        × (s3 : Store media) × (connect name s ≡ some (ok send, s1))
        × (connect name s1 ≡ some (err already_connected, s2))
        × (connect name (drop_send send s2) ≡ some (ok later, s3))
        × (later.tx ≡ send.tx)
        × (send.source_id + 2 ≡ later.source_id)
  one_sender name c tx s here free named room =
      let send : SourceSend = record { shared = c.shared; source_id = c.seq + 1; tx = some tx } in
      let c1 : Source = record c { seq = c.seq + 1; tx = none } in
      let s1 : Store media = record s { channels = insert name c1 s.channels } in
      let c2 : Source = record c1 { seq = c.seq + 1 + 1 } in
      let s2 : Store media = record s1 { channels = insert name c2 s1.channels } in
      let c3 : Source = record c2 { tx = some tx } in
      let after : Store media = drop_send send s2 in
      (
        send,
        s1,
        s2,
        record { shared = c.shared; source_id = c3.seq + 1; tx = some tx },
        record after {
          channels = insert name (record c3 { seq = c3.seq + 1; tx = none }) after.channels;
        },
        connect_lem name c tx s here free (omega arith),
        refused_lem name c1 s1 (get_inserted name c1 s.channels) refl (omega arith),
        connect_lem name c3 tx after
            (drop_send_lem name send c2 s2 named (get_inserted name c2 s1.channels)) refl
            (omega arith),
        refl,
        omega arith,
      )

  -- The channel of a sender whose receiver is gone, after another receiver listens on the same name:
  -- dropping the old sender puts its producers in the new channel, so the next sender writes to a
  -- buffer that no receiver reads.
  pub stale_drop :
      (name : Name) (s : Store media)
      → get name s.channels ≡ none
      → (recv : SourceRecv) × (s1 : Store media) × (send : SourceSend) × (s2 : Store media)
        × (recv' : SourceRecv) × (s3 : Store media) × (later : SourceSend) × (s4 : Store media)
        × (tx : TxPair) × (listen name s ≡ ok (recv, s1))
        × (connect name s1 ≡ some (ok send, s2))
        × (listen name (drop_recv recv s2) ≡ ok (recv', s3))
        × (connect name (drop_send send s3) ≡ some (ok later, s4))
        × (later.tx ≡ some tx)
        × (tx.audio ≢ recv'.audio_rx)
        × (tx.video ≢ recv'.video_rx)
  unfolding drop_recv
  stale_drop name s free =
      let recv = new_recv s.fresh in
      let s1 : Store media = opened name s in
      let c = new_source s.fresh in
      let tx : TxPair = record { audio = s.fresh; video = s.fresh } in
      let send : SourceSend = record { shared = s.fresh; source_id = 1; tx = some tx } in
      let s2 : Store media = record s1 {
        channels = insert name (record c { seq = 1; tx = none }) s1.channels;
      } in
      let gone : Store media = drop_recv recv s2 in
      let s3 : Store media = opened name gone in
      let c' : Source = record (new_source gone.fresh) { tx = some tx } in
      let after : Store media = drop_send send s3 in
      (
        recv,
        s1,
        send,
        s2,
        new_recv gone.fresh,
        s3,
        record { shared = c'.shared; source_id = 1; tx = some tx },
        record after { channels = insert name (record c' { seq = 1; tx = none }) after.channels },
        tx,
        listen_lem name s free,
        connect_lem name c tx s1 (get_inserted name c s.channels) refl (omega arith),
        listen_lem name gone (drop_recv_lem name recv s2 (ground arith)),
        connect_lem name c' tx after
            (drop_send_lem name send (new_source gone.fresh) s3 (ground arith)
              (get_inserted name (new_source gone.fresh) gone.channels))
            refl (omega arith),
        refl,
        (λ e. omega arith),
        (λ e. omega arith),
      )
