-- ===== src/Listen.antt =====
-- src/listen.rs: a connection whose first bytes tell its protocol.
pub mod Unread
use mixlab.Prelude.{ℕ, ◌+◌, ◌-◌, ◌%◌, Bool, false, List, [], ◌∷◌, if◌then◌else◌, ltb, ◌==◌}
use mixlab.Prelude.Lists.{length, take, drop, same_text}
use mixlab.Prelude.Result.{Result, ok, err, panic}

-- The calls of tokio's TcpStream.
pub record Tcp : Type 1 where
  pub Conn : Type 0
  pub IoError : Type 0
  -- what is read into a buffer of this length
  pub read : Conn → ℕ → Result IoError (List ℕ) × Conn
  pub read_exact : Conn → ℕ → Result IoError (List ℕ) × Conn

module _ (T : Tcp) where
  pub record PeekTcpStream : Type 0 where
    pub peek : List ℕ
    pub offset : ℕ
    pub conn : T.Conn

  pub data Disambiguation : Type 0 where
    http : PeekTcpStream → Disambiguation
    icecast : PeekTcpStream → Disambiguation
    rtmp : PeekTcpStream → Disambiguation

-- `cmp::min`
unfoldable pub min : ℕ → ℕ → ℕ
min a b = if ltb b a then b else a

-- b"SOURCE "
abbrev pub source_bytes : List ℕ
source_bytes = 83 ∷ 79 ∷ 85 ∷ 82 ∷ 67 ∷ 69 ∷ 32 ∷ []

unfoldable pub starts_with : ℕ → List ℕ → Bool
starts_with byte [] = false
starts_with byte (x ∷ xs) = x == byte

module _ {T : Tcp} where
  unfoldable pub opened :
      T.Conn → Result T.IoError (List ℕ) × T.Conn → Result T.IoError (PeekTcpStream T)
  opened conn (ok bytes, conn') = ok (record { peek = bytes; offset = 0; conn = conn' })
  opened conn (err e, conn') = err e
  opened conn (panic, conn') = panic

  unfoldable pub new_stream : T.Conn → Result T.IoError (PeekTcpStream T)
  unfolding opened
  new_stream conn = opened conn (T.read_exact conn 7)

  unfoldable pub peeked : PeekTcpStream T → List ℕ
  peeked s = drop s.offset s.peek

  -- AsyncRead::poll_read, once it is ready, for a buffer of length `n`.
  unfoldable pub read : PeekTcpStream T → ℕ → Result T.IoError (List ℕ) × PeekTcpStream T
  unfolding min
  read s n =
      let remaining : ℕ = length s.peek - s.offset in
      let advanced : ℕ = min n remaining in
      let (result, conn) = T.read s.conn n in
      if ltb 0 remaining
      then (
        ok (take advanced (drop s.offset s.peek)),
        record s { offset = (s.offset + advanced) % 256 },
      )
      else (result, record s { conn = conn })

  unfoldable pub disambiguated : PeekTcpStream T → Disambiguation T
  unfolding peeked starts_with same_text
  disambiguated s =
      if same_text (peeked s) source_bytes
      then icecast s
      else if starts_with 3 (peeked s)
      then rtmp s
      else http s

  unfoldable pub disambiguate : T.Conn → Result T.IoError (Disambiguation T)
  unfolding new_stream disambiguated
  disambiguate conn = elim (new_stream conn) [
    | ok s ↦ ok (disambiguated s)
    | err e ↦ err e
    | panic ↦ panic
  ]
