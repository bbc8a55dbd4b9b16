-- ===== src/Listen/Unread.antt =====
-- What src/listen.rs has not read of a connection yet.
use mathlib.Core.List.{append_assoc}
use mixlab.Prelude.{
  ℕ, ◌+◌, ◌-◌, ◌%◌, ◌≡◌, ◌≢◌, ◌≤◌, refl, sym, subst, List, ◌++◌, Bool-cases, inl, inr, arith, ltb,
}
use mixlab.Prelude.Lists.{length, take, drop, append-take-drop, drop-drop, drop-all, length-take_le}
use mixlab.Prelude.Result.{Result, ok, err, panic}
use mixlab.Listen.{Tcp, PeekTcpStream, min, opened, new_stream, read}

-- What the program relies on: the bytes that are read are the next of those that will come, no
-- more of them than was asked for, and none of the calls panics.
pub record TcpLaws (T : Tcp) : Type 0 where
  pub to_come : T.Conn → List ℕ
  pub read_next :
      (c : T.Conn) (n : ℕ) (bytes : List ℕ)
      → (T.read c n).0 ≡ ok bytes
      → (length bytes ≤ n) × (bytes ++ to_come (T.read c n).1 ≡ to_come c)
  pub read_exact_next :
      (c : T.Conn) (n : ℕ) (bytes : List ℕ)
      → (T.read_exact c n).0 ≡ ok bytes
      → (length bytes ≡ n) × (bytes ++ to_come (T.read_exact c n).1 ≡ to_come c)
  pub read_returns : (c : T.Conn) (n : ℕ) → (T.read c n).0 ≢ panic

module _ {T : Tcp} (laws : TcpLaws T) where
  -- The first seven bytes are held, and an offset counts those that were read of them.
  abbrev pub Holds : PeekTcpStream T → Type 0
  Holds s = (length s.peek ≡ 7) × (s.offset ≤ 7)

  -- The bytes that reading the stream will give.
  abbrev pub unread : PeekTcpStream T → List ℕ
  unread s = drop s.offset s.peek ++ laws.to_come s.conn

min_le : (n m : ℕ) → (min n m ≤ n) × (min n m ≤ m)
unfolding min
min_le n m = ground arith

module _ {T : Tcp} (laws : TcpLaws T) where
  opened-Holds :
      (c : T.Conn) (s : PeekTcpStream T) (result : Result T.IoError (List ℕ)) (c' : T.Conn)
      → ((bytes : List ℕ)
          → result ≡ ok bytes
          → (length bytes ≡ 7) × (bytes ++ laws.to_come c' ≡ laws.to_come c))
      → opened c (result, c') ≡ ok s
      → Holds laws s × (unread laws s ≡ laws.to_come c)
  unfolding opened
  opened-Holds c s (ok bytes) c' law e =
      let (seven, all) = law bytes refl in
      let first : PeekTcpStream T = record { peek = bytes; offset = 0; conn = c' } in
      let same : first ≡ s = cc e in
      subst (λ (s : PeekTcpStream T). Holds laws s × (unread laws s ≡ laws.to_come c)) same
        ((seven, omega arith), all)
  opened-Holds c s (err x) c' law e = cc e
  opened-Holds c s panic c' law e = cc e

  -- A stream that was opened gives the bytes of its connection.
  pub new_stream-Holds :
      (c : T.Conn) (s : PeekTcpStream T)
      → new_stream c ≡ ok s
      → Holds laws s × (unread laws s ≡ laws.to_come c)
  unfolding new_stream
  new_stream-Holds c s e =
      opened-Holds c s (T.read_exact c 7).0 (T.read_exact c 7).1 (laws.read_exact_next c 7) e

  -- What a read gives.
  abbrev pub Next : PeekTcpStream T → ℕ → Result T.IoError (List ℕ) × PeekTcpStream T → Type 0
  Next s n (result, s') =
      Holds laws s'
      × (result ≢ panic)
      × ((bytes : List ℕ)
          → result ≡ ok bytes
          → (length bytes ≤ n) × (bytes ++ unread laws s' ≡ unread laws s))

  held :
      (s : PeekTcpStream T) (n advanced : ℕ)
      → Holds laws s
      → advanced ≤ n
      → advanced ≤ 7 - s.offset
      → Next s n (
        ok (take advanced (drop s.offset s.peek)),
        record s { offset = (s.offset + advanced) % 256 },
      )
  held s n advanced (seven, offset) le le' = (
    (seven, omega arith),
    (λ e. cc e),
    λ bytes e.
        let rest = drop s.offset s.peek in
        let same : take advanced rest ≡ bytes = cc e in
        subst
          (λ (bytes : List ℕ).
            (length bytes ≤ n)
            × (bytes ++ (drop ((s.offset + advanced) % 256) s.peek ++ laws.to_come s.conn)
                ≡ unread laws s))
          same
          (
            omega (arith, length-take_le advanced rest),
            rw
                (
                  sym (
                      drop-drop s.offset advanced ((s.offset + advanced) % 256) s.peek
                        (omega arith)),
                  sym (
                      append_assoc (take advanced rest) (drop advanced rest) (laws.to_come s.conn)),
                  append-take-drop advanced rest,
                )
                refl,
          ),
  )

  passed :
      (s : PeekTcpStream T) (n : ℕ)
      → Holds laws s
      → 7 ≤ s.offset
      → Next s n ((T.read s.conn n).0, record s { conn = (T.read s.conn n).1 })
  passed s n (seven, offset) end = (
    (seven, offset),
    laws.read_returns s.conn n,
    λ bytes e. rw (drop-all s.offset s.peek (omega arith)) (laws.read_next s.conn n bytes e),
  )

  -- A read gives the next of the bytes, and the first seven stay held.
  pub read-Holds : (s : PeekTcpStream T) (n : ℕ) → Holds laws s → Next s n (read s n)
  unfolding read
  read-Holds s n (seven, offset) = elim (Bool-cases (ltb 0 (length s.peek - s.offset))) [
    | inl e ↦
        let (le, le') = min_le n (length s.peek - s.offset) in
        rw (read, e) (held s n (min n (length s.peek - s.offset)) (seven, offset) le (omega arith))
    | inr e ↦ rw (read, e) (passed s n (seven, offset) (ground arith))
  ]
