-- ===== src/Tests/Output.antt =====
-- A stream output that connects.
use mathlib.Core.Option
use mixlab.Prelude.{ℕ, ◌+◌, ◌≡◌, ◌↔◌, refl, List, [], ◌∷◌, map, Option, none, some, arith}
use mixlab.Prelude.Result.{ok, panic}
use mixlab.Engine.Io.{Signals, InputRef, disconnected, expect_video, expect_stereo, replicate}
use mixlab.Output.{
  Network, StreamOutput, TryRecv, connected, sent, empty, create, update, run_tick, connect_rtmp,
  rtmp_scheme, LiveOutputMsg, tick_msg, indicate, status_of, next_connection, is_active,
}
use mixlab.Output.Status.{StreamOutputParams, StreamOutputIndication}
use mixlab.Output.Connect.{BadPath, connect_rtmp-BadPath}
use mixlab.Output.Shown.{Watched, show}
use mixlab.Output.Indicate.{here, more, changed, ticked, created, Sends, Reach-IsShown}
use mixlab.Output.Live.{LiveOutput, signals_of, run_thread}
use mixlab.Output.Live.Sound.{samples_of, raw_frames, sound_published}
use mixlab.Video.Audio.{Encodes, IsBounded}
use mixlab.Tests.Media.{units, at_units}
use mixlab.Tests.Video.{codecs, fresh, tick_samples}

-- Every address is rtmp://h, which has no path.
abbrev net : Network
net = record {
  ParseError = ℕ;
  IoError = ℕ;
  ClientError = ℕ;
  TcpStream = ℕ;
  Client = ℕ;
  PublishClient = ℕ;
  parse_url =
      λ s. ok (record { scheme = rtmp_scheme; host_str = some (104 ∷ []); port = none; path = [] });
  connect_tcp = λ host port. ok port;
  set_nodelay = λ conn. ok conn;
  start = λ conn. ok conn;
  publish = λ c info. ok c;
}

abbrev signals : Signals
signals = signals_of units codecs 0

abbrev old : StreamOutputParams
old = record { seq = 1; connect_seq = 0; disconnect_seq = 0; rtmp_url = []; rtmp_stream_key = [] }

abbrev new : StreamOutputParams
new = record { seq = 2; connect_seq = 2; disconnect_seq = 0; rtmp_url = []; rtmp_stream_key = [] }

connect_rtmp-BadPath_example : (connect_rtmp {N = net} new ≡ panic) ↔ BadPath net new.rtmp_url
connect_rtmp-BadPath_example =
    connect_rtmp-BadPath
      (record {
        parse_url = λ s e. cc e;
        connect_tcp = λ host port e. cc e;
        set_nodelay = λ conn e. cc e;
        start = λ conn e. cc e;
        publish = λ c info e. cc e;
      })
      new

abbrev inputs : List (InputRef signals)
inputs = disconnected ∷ disconnected ∷ []

abbrev at_first : Watched units net signals
at_first = (created {R = units} {N = net} {signals = signals} old)

abbrev asked : Watched units net signals
asked = record at_first { output = (update at_first.output new).1 }

-- What a tick at the end of the first interval gives.
abbrev outcome :
    StreamOutput units net signals
    → TryRecv net
    → Option StreamOutputIndication × StreamOutput units net signals
outcome m attempt = Option.get_or (run_tick m 735 inputs attempt sent) (none, m)

abbrev waited : Watched units net signals
waited = show asked.shown (outcome asked.output empty)

-- The clients are sent that the module connects, and then that it is live.
Reach-IsShown_example : Sends waited.shown (outcome waited.output (connected 5))
unfolding create update run_tick tick_msg indicate status_of next_connection is_active expect_video
    expect_stereo
Reach-IsShown_example =
    Reach-IsShown old 735 inputs (connected 5) sent (outcome waited.output (connected 5))
      (more (more here (changed at_first new))
        (ticked asked 735 inputs empty sent (outcome asked.output empty) refl))
      refl

abbrev at_start : LiveOutput units codecs
at_start = record { epoch = at_units 0; encode = fresh }

abbrev two_ticks : List (LiveOutputMsg units net signals)
two_ticks =
    record { timestamp = at_units 7350; audio = tick_samples; video = none }
    ∷ record { timestamp = at_units 14700; audio = tick_samples; video = none }
    ∷ []

sound_published_example :
    let (out, end) = run_thread at_start two_ticks in
    Encodes fresh
      (map (λ x. x + 1) (samples_of units codecs net 0 two_ticks))
      (raw_frames out)
      end.encode
    × IsBounded end.encode
unfolding replicate
sound_published_example =
    sound_published at_start two_ticks (omega arith) (omega arith, (omega arith, tt))
