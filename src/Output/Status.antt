-- ===== src/Output/Status.antt =====
-- protocol/src/lib.rs: the parameters and the indication of the stream output.
use mixlab.Prelude.{ℕ, ◌&&◌, Bool, true, false, List}

pub record StreamOutputParams : Type 0 where
  pub seq : ℕ
  pub connect_seq : ℕ
  pub disconnect_seq : ℕ
  pub rtmp_url : List ℕ
  pub rtmp_stream_key : List ℕ

pub data StreamOutputLiveStatus : Type 0 where
  offline connecting live : StreamOutputLiveStatus

pub record StreamOutputIndication : Type 0 where
  pub live_status : StreamOutputLiveStatus
  pub error : Bool

-- The derived PartialEq.
unfoldable pub same_status : StreamOutputLiveStatus → StreamOutputLiveStatus → Bool
same_status offline offline = true
same_status connecting connecting = true
same_status live live = true
same_status offline connecting = false
same_status offline live = false
same_status connecting offline = false
same_status connecting live = false
same_status live offline = false
same_status live connecting = false

unfoldable pub same_error : Bool → Bool → Bool
same_error true true = true
same_error false false = true
same_error true false = false
same_error false true = false

unfoldable pub same_indication : StreamOutputIndication → StreamOutputIndication → Bool
unfolding same_status same_error
same_indication a b = same_status a.live_status b.live_status && same_error a.error b.error
