-- ===== src/Source.antt =====
-- src/source.rs: named channels that carry media from one sender at a time to one receiver. What the
-- threads share (the registry behind its mutex, the `Arc`s, the ring buffers) is one store, and each
-- `Arc` and ring buffer has an address in it.
pub mod Stream
pub mod Senders
use mixlab.Prelude.{
  ℕ, suc, Bool, true, false, Option, none, some, ◌≡◌, ◌<◌, List, [], ◌∷◌, ◌++◌, length,
  if◌then◌else◌, ℕ_discrete,
}
use mixlab.Prelude.Map.{Key, Map, get, insert, remove, modify}
use mixlab.Prelude.Result.{Result, ok, err}
use mixlab.Util.{next}

-- The crate ringbuf: a buffer of bounded size, split in a producer that pushes and a consumer that pops.
pub record RingBuffer : Type 1 where
  pub Ring : Type 0 → Type 0
  pub new : {A : Type 0} → ℕ → Ring A
  -- `none`: the buffer is full.
  pub push : {A : Type 0} → A → Ring A → Option (Ring A)
  pub pop : {A : Type 0} → Ring A → Option (A × Ring A)

-- What the crate documents: first in, first out, and a push fails only at a full buffer.
pub record RingLaws (ring : RingBuffer) : Type 1 where
  pub contents : {A : Type 0} → ring.Ring A → List A
  pub capacity : {A : Type 0} → ring.Ring A → ℕ
  pub new_contents : {A : Type 0} (n : ℕ) → contents (ring.new {A = A} n) ≡ []
  pub new_capacity : {A : Type 0} (n : ℕ) → capacity (ring.new {A = A} n) ≡ n
  pub pushed :
      {A : Type 0} (a : A) (r : ring.Ring A)
      → length (contents r) < capacity r
      → (r' : ring.Ring A) × (ring.push a r ≡ some r')
        × (contents r' ≡ contents r ++ a ∷ [])
        × (capacity r' ≡ capacity r)
  pub popped :
      {A : Type 0} (a : A) (rest : List A) (r : ring.Ring A)
      → contents r ≡ a ∷ rest
      → (r' : ring.Ring A) × (ring.pop r ≡ some (a, r'))
        × (contents r' ≡ rest)
        × (capacity r' ≡ capacity r)
  pub drained : {A : Type 0} (r : ring.Ring A) → contents r ≡ [] → ring.pop r ≡ none

instance abbrev pub address_key : Key ℕ
address_key = record { eq? = ℕ_discrete }

pub data ListenError : Type 0 where
  already_in_use : ListenError

pub data ConnectError : Type 0 where
  no_mountpoint already_connected : ConnectError

-- The addresses of the two producers.
pub record TxPair : Type 0 where
  pub audio : ℕ
  pub video : ℕ

-- `shared` is the address of a `SourceShared`.
pub record Source : Type 0 where
  pub shared : ℕ
  pub seq : ℕ
  pub tx : Option TxPair

-- `tx` is an option so that `drop` can take it out.
pub record SourceSend : Type 0 where
  pub shared : ℕ
  pub source_id : ℕ
  pub tx : Option TxPair

pub record SourceRecv : Type 0 where
  pub shared : ℕ
  pub audio_rx : ℕ
  pub video_rx : ℕ

-- `payload` is the field data. Times and data are passed through.
pub record Frame (Time Data : Type 0) : Type 0 where
  pub source_id : ℕ
  pub source_time : Time
  pub payload : Data

abbrev pub ring_size : ℕ
ring_size = 65536

-- The ring buffers, and what is sent: `MediaTime`, `AudioData` and `VideoData`.
pub record Media : Type 1 where
  pub ring : RingBuffer
  pub Name : Type 0
  pub Time : Type 0
  pub Audio : Type 0
  pub Video : Type 0

module _ (media : Media) where
  open media use {ring, Name, Time, Audio, Video}

  pub record SourceShared : Type 0 where
    pub channel_name : Name
    pub recv_online : Bool

  -- `channels` is the registry. `fresh` is an address above those in use.
  pub record Store : Type 0 where
    pub channels : Map Name Source
    pub shareds : ℕ → SourceShared
    pub audio_rings : ℕ → ring.Ring (Frame Time Audio)
    pub video_rings : ℕ → ring.Ring (Frame Time Video)
    pub fresh : ℕ

abbrev pub set {ℓ} : {A : Type ℓ} → ℕ → A → (ℕ → A) → ℕ → A
set i a f j = elim (ℕ_discrete i j) [ yes _ ↦ a | no _ ↦ f j ]

abbrev pub new_source : ℕ → Source
new_source here = record {
  shared = here;
  seq = 0;
  tx = some (record { audio = here; video = here });
}

abbrev pub new_recv : ℕ → SourceRecv
new_recv here = record { shared = here; audio_rx = here; video_rx = here }

module _ {media : Media} ⦃name_key : Key media.Name⦄ where
  open media use {ring, Name, Time, Audio, Video}

  -- The store with a new channel in it.
  abbrev pub opened : Name → Store media → Store media
  opened channel_name s =
      let here = s.fresh in
      record {
        channels = insert channel_name (new_source here) s.channels;
        shareds = set here (record { channel_name = channel_name; recv_online = true }) s.shareds;
        audio_rings = set here (ring.new ring_size) s.audio_rings;
        video_rings = set here (ring.new ring_size) s.video_rings;
        fresh = suc here;
      }

  unfoldable pub listen : Name → Store media → Result ListenError (SourceRecv × Store media)
  listen channel_name s = elim (get channel_name s.channels) [
    | some _ ↦ err already_in_use
    | none ↦ ok (new_recv s.fresh, opened channel_name s)
  ]

  -- The number is drawn before it is known whether the channel is free.
  abbrev take_tx :
      Name → Source → ℕ → Option TxPair → Store media → Result ConnectError SourceSend × Store media
  take_tx channel_name source id none s = (
    err already_connected,
    record s { channels = insert channel_name (record source { seq = id }) s.channels },
  )
  take_tx channel_name source id (some tx) s = (
    ok (record { shared = source.shared; source_id = id; tx = some tx }),
    record s { channels = insert channel_name (record source { seq = id; tx = none }) s.channels },
  )

  -- `none` is the panic of a sequence that is used up.
  unfoldable pub connect :
      Name → Store media → Option (Result ConnectError SourceSend × Store media)
  connect channel_name s = elim (get channel_name s.channels) [
    | none ↦ some (err no_mountpoint, s)
    | some source ↦ elim (next source.seq) [
      | none ↦ none
      | some id ↦ some (take_tx channel_name source id source.tx s)
    ]
  ]

  unfoldable pub connected : SourceSend → Store media → Bool
  connected send s = (s.shareds send.shared).recv_online

  abbrev pushed_audio :
      ℕ
      → Option (ring.Ring (Frame Time Audio))
      → Store media
      → Result (Unit {0}) (Unit {0}) × Store media
  pushed_audio i none s = (err tt, s)
  pushed_audio i (some r) s = (ok tt, record s { audio_rings = set i r s.audio_rings })

  abbrev pushed_video :
      ℕ
      → Option (ring.Ring (Frame Time Video))
      → Store media
      → Result (Unit {0}) (Unit {0}) × Store media
  pushed_video i none s = (err tt, s)
  pushed_video i (some r) s = (ok tt, record s { video_rings = set i r s.video_rings })

  -- `none` is the panic of a sender without producers.
  unfoldable pub write_audio :
      SourceSend → Time → Audio → Store media → Option (Result (Unit {0}) (Unit {0}) × Store media)
  unfolding connected
  write_audio send timestamp payload s =
      if connected send s
      then elim send.tx [
        | none ↦ none
        | some tx ↦ some (
            pushed_audio tx.audio
              (ring.push
                (record { source_id = send.source_id; source_time = timestamp; payload = payload })
                (s.audio_rings tx.audio))
              s)
      ]
      else some (err tt, s)

  unfoldable pub write_video :
      SourceSend → Time → Video → Store media → Option (Result (Unit {0}) (Unit {0}) × Store media)
  unfolding connected
  write_video send timestamp payload s =
      if connected send s
      then elim send.tx [
        | none ↦ none
        | some tx ↦ some (
            pushed_video tx.video
              (ring.push
                (record { source_id = send.source_id; source_time = timestamp; payload = payload })
                (s.video_rings tx.video))
              s)
      ]
      else some (err tt, s)

  -- `drop` of a sender finds the channel by its name.
  unfoldable pub drop_send : SourceSend → Store media → Store media
  drop_send send s = record s {
    channels =
        modify (s.shareds send.shared).channel_name (λ c. record c { tx = send.tx }) s.channels;
  }

  abbrev popped_audio :
      ℕ
      → Option (Frame Time Audio × ring.Ring (Frame Time Audio))
      → Store media
      → Option (Frame Time Audio) × Store media
  popped_audio i none s = (none, s)
  popped_audio i (some (frame, r)) s =
      (some frame, record s { audio_rings = set i r s.audio_rings })

  abbrev popped_video :
      ℕ
      → Option (Frame Time Video × ring.Ring (Frame Time Video))
      → Store media
      → Option (Frame Time Video) × Store media
  popped_video i none s = (none, s)
  popped_video i (some (frame, r)) s =
      (some frame, record s { video_rings = set i r s.video_rings })

  unfoldable pub read_audio : SourceRecv → Store media → Option (Frame Time Audio) × Store media
  read_audio recv s = popped_audio recv.audio_rx (ring.pop (s.audio_rings recv.audio_rx)) s

  unfoldable pub read_video : SourceRecv → Store media → Option (Frame Time Video) × Store media
  read_video recv s = popped_video recv.video_rx (ring.pop (s.video_rings recv.video_rx)) s

  unfoldable pub drop_recv : SourceRecv → Store media → Store media
  drop_recv recv s =
      let shared = s.shareds recv.shared in
      record s {
        channels = remove shared.channel_name s.channels;
        shareds = set recv.shared (record shared { recv_online = false }) s.shareds;
      }
