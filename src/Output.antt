-- ===== src/Output.antt =====
-- src/module/stream_output.rs: the module that streams to an RTMP server.
pub mod Status
pub mod Indicate
pub mod Connect
pub mod Live
pub mod Shown
use mixlab.Prelude.{
  ℕ, ◌≤◌, leb, ◌==◌, Bool, true, false, List, [], ◌∷◌, ◌++◌, Option, none, some, if◌then◌else◌,
}
use mixlab.Prelude.Int.{pos}
use mixlab.Prelude.Lists.{same_text}
use mixlab.Prelude.Result.{Result, ok, err, panic, ◌>>=◌}
use mixlab.Media.{Rational, MediaTime, new_time}
use mixlab.Engine.Io.{Signals, InputRef, expect_video, expect_stereo}
use mixlab.Output.Status.{
  StreamOutputParams, StreamOutputIndication, StreamOutputLiveStatus, same_indication,
}

-- Texts are lists of characters.
pub record Url : Type 0 where
  pub scheme : List ℕ
  pub host_str : Option (List ℕ)
  pub port : Option ℕ
  pub path : List ℕ

-- The parts of PublishInfo that depend on the parameters; the stream's metadata are constant.
pub record PublishInfo : Type 0 where
  pub app_name : List ℕ
  pub stream_key : List ℕ

-- The crate url, the sockets of tokio and the client of src/rtmp/client.rs.
pub record Network : Type 1 where
  pub ParseError : Type 0
  pub IoError : Type 0
  pub ClientError : Type 0
  pub TcpStream : Type 0
  pub Client : Type 0
  pub PublishClient : Type 0
  pub parse_url : List ℕ → Result ParseError Url
  pub connect_tcp : List ℕ → ℕ → Result IoError TcpStream
  pub set_nodelay : TcpStream → Result IoError TcpStream
  pub start : TcpStream → Result ClientError Client
  pub publish : Client → PublishInfo → Result ClientError PublishClient

module _ (N : Network) where
  pub data RtmpConnectError : Type 0 where
    url : N.ParseError → RtmpConnectError
    unsupported_scheme : RtmpConnectError
    missing_host : RtmpConnectError
    io : N.IoError → RtmpConnectError
    client : N.ClientError → RtmpConnectError

-- `?`, with the conversion of the error.
unfoldable pub convert_err {ℓ} : {E F : Type 0} {A : Type ℓ} → (E → F) → Result E A → Result F A
convert_err f (ok a) = ok a
convert_err f (err e) = err (f e)
convert_err f panic = panic

unfoldable pub ok_or {ℓ} : {E : Type 0} {A : Type ℓ} → E → Option A → Result E A
ok_or e none = err e
ok_or e (some a) = ok a

unfoldable pub unwrap_or : ℕ → Option ℕ → ℕ
unwrap_or d none = d
unwrap_or d (some n) = n

-- "rtmp"
abbrev pub rtmp_scheme : List ℕ
rtmp_scheme = 114 ∷ 116 ∷ 109 ∷ 112 ∷ []

module _ {N : Network} where
  unfoldable pub check_scheme : Url → Result (RtmpConnectError N) Url
  unfolding same_text
  check_scheme u = if same_text u.scheme rtmp_scheme then ok u else err unsupported_scheme

  -- The path without its `/`, which is asserted; 47 is its character.
  unfoldable pub app_name_of : List ℕ → Result (RtmpConnectError N) (List ℕ)
  app_name_of [] = panic
  app_name_of (c ∷ path) = if c == 47 then ok path else panic

  -- From the socket on.
  unfoldable pub publish_on : List ℕ → ℕ → PublishInfo → Result (RtmpConnectError N) N.PublishClient
  unfolding convert_err
  publish_on hostname port info = do
    conn ← convert_err io (N.connect_tcp hostname port)
    ready ← convert_err io (N.set_nodelay conn)
    started ← convert_err client (N.start ready)
    convert_err client (N.publish started info)

  unfoldable pub connect_rtmp : StreamOutputParams → Result (RtmpConnectError N) N.PublishClient
  unfolding convert_err ok_or unwrap_or check_scheme app_name_of publish_on
  connect_rtmp params = do
    parsed ← convert_err url (N.parse_url params.rtmp_url)
    u ← check_scheme parsed
    hostname ← ok_or missing_host u.host_str
    app_name ← app_name_of u.path
    publish_on hostname (unwrap_or 1935 u.port)
        (record { app_name = app_name; stream_key = params.rtmp_stream_key })

-- What `completion.try_recv()` gives.
pub data TryRecv (N : Network) : Type 0 where
  connected : N.PublishClient → TryRecv N
  failed_with : RtmpConnectError N → TryRecv N
  empty closed : TryRecv N

-- What `tx.try_send(msg)` gives.
pub data TrySend : Type 0 where
  sent full disconnected : TrySend

module _ (R : Rational) (N : Network) (signals : Signals) where
  pub record LiveOutputMsg : Type 0 where
    pub timestamp : MediaTime R
    pub audio : List signals.Sample
    pub video : Option signals.VideoFrame

  -- The thread behind the channel, by what it was started with and what it was sent.
  pub record LiveOutputTask : Type 0 where
    pub epoch : MediaTime R
    pub publish : N.PublishClient
    pub messages : List LiveOutputMsg

  pub data Connection : Type 0 where
    offline : Connection
    failed : Option (RtmpConnectError N) → Connection
    -- with the parameters of the task that connects
    connecting : StreamOutputParams → Connection
    live : LiveOutputTask → Connection

  pub record StreamOutput : Type 0 where
    pub params : StreamOutputParams
    pub connection : Connection
    pub indication : StreamOutputIndication

module _ {R : Rational} {N : Network} {signals : Signals} where
  unfoldable pub is_active : Connection R N signals → Bool
  is_active Connection.offline = false
  is_active (Connection.failed e) = false
  is_active (Connection.connecting params) = true
  is_active (Connection.live task) = true

  -- The indication of a connection, as `indicate` makes it.
  unfoldable pub status_of : Connection R N signals → StreamOutputIndication
  status_of Connection.offline = record {
    live_status = StreamOutputLiveStatus.offline;
    error = false;
  }
  status_of (Connection.failed e) = record {
    live_status = StreamOutputLiveStatus.offline;
    error = true;
  }
  status_of (Connection.connecting params) = record {
    live_status = StreamOutputLiveStatus.connecting;
    error = false;
  }
  status_of (Connection.live task) = record {
    live_status = StreamOutputLiveStatus.live;
    error = false;
  }

  unfoldable pub indicate :
      StreamOutput R N signals → Option StreamOutputIndication × StreamOutput R N signals
  unfolding status_of same_indication
  indicate m =
      let new = status_of m.connection in
      if same_indication new m.indication
      then (none, m)
      else (some new, record m { indication = new })

  unfoldable pub create : StreamOutputParams → StreamOutput R N signals × StreamOutputIndication
  create params =
      let indic : StreamOutputIndication = record {
        live_status = StreamOutputLiveStatus.offline;
        error = false;
      } in
      (record { params = params; connection = Connection.offline; indication = indic }, indic)

  unfoldable pub update :
      StreamOutput R N signals
      → StreamOutputParams
      → Option StreamOutputIndication × StreamOutput R N signals
  unfolding is_active
  update m new =
      if leb new.seq m.params.seq
      then (none, m)
      else if is_active m.connection
      then (if new.disconnect_seq == new.seq
          then (
            some (record { live_status = StreamOutputLiveStatus.offline; error = false }),
            record m { connection = Connection.offline },
          )
          else (none, m))
      else if new.connect_seq == new.seq
      then (
        some (record { live_status = StreamOutputLiveStatus.connecting; error = false }),
        record m { params = new; connection = Connection.connecting new },
      )
      else (none, record m { params = new })

  unfoldable pub send :
      LiveOutputMsg R N signals → LiveOutputTask R N signals → TrySend → Connection R N signals
  send msg task sent = Connection.live (record task { messages = task.messages ++ (msg ∷ []) })
  send msg task full = Connection.live task
  send msg task disconnected = Connection.failed none

  -- The connection after a tick.
  unfoldable pub next_connection :
      Connection R N signals
      → LiveOutputMsg R N signals
      → TryRecv N
      → TrySend
      → Connection R N signals
  unfolding send
  next_connection Connection.offline msg attempt result = Connection.offline
  next_connection (Connection.failed e) msg attempt result = Connection.failed e
  next_connection (Connection.connecting params) msg (connected publish) result =
      send msg (record { epoch = msg.timestamp; publish = publish; messages = [] }) result
  next_connection (Connection.connecting params) msg (failed_with e) result =
      Connection.failed (some e)
  next_connection (Connection.connecting params) msg empty result = Connection.connecting params
  next_connection (Connection.connecting params) msg closed result = Connection.offline
  next_connection (Connection.live task) msg attempt result = send msg task result

  -- What a tick finds at the inputs, as the message to the encoder: `none` is a panic. SAMPLE_RATE is
  -- 44100.
  unfoldable pub tick_msg : ℕ → List (InputRef signals) → Option (LiveOutputMsg R N signals)
  unfolding expect_video expect_stereo new_time
  tick_msg engine_time (video_in ∷ audio_in ∷ []) = elim (expect_video video_in) [
    | none ↦ none
    | some video ↦ elim (expect_stereo audio_in) [
      | none ↦ none
      | some audio ↦ some (record {
        timestamp = new_time (pos engine_time) (pos 44100);
        audio = audio;
        video = video;
      })
    ]
  ]
  tick_msg engine_time [] = none
  tick_msg engine_time (video_in ∷ []) = none
  tick_msg engine_time (video_in ∷ audio_in ∷ more ∷ rest) = none

  unfoldable pub run_tick :
      StreamOutput R N signals
      → ℕ
      → List (InputRef signals)
      → TryRecv N
      → TrySend
      → Option (Option StreamOutputIndication × StreamOutput R N signals)
  run_tick m engine_time inputs attempt result = elim (tick_msg engine_time inputs) [
    | none ↦ none
    | some msg ↦
        some (indicate (record m { connection = next_connection m.connection msg attempt result }))
  ]
