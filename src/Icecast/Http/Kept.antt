-- ===== src/Icecast/Http/Kept.antt =====
-- The bytes of a stream around its request, in src/icecast/http.rs.
use mathlib.Core.List.{append_assoc}
use mixlab.Prelude.{
  ℕ, zero, suc, ◌+◌, ◌-◌, ◌≡◌, ◌≢◌, ◌≤◌, ◌<◌, refl, sym, ap, subst, ◌∙◌, ◌⊎◌, inl, inr, List, [],
  ◌∷◌, ◌++◌, Option, none, some, some_inj, Option-cases, Bool-cases, arith, ◌==◌, not_lt→ltb,
}
use mixlab.Prelude.Lists.{length, take, drop, length-append, length-take, append-take-drop}
use mixlab.Prelude.Result.{Result, ok, err, panic, ◌>>=◌}
use mixlab.Listen.{Tcp, PeekTcpStream, read, new_stream}
use mixlab.Listen.Unread.{TcpLaws, Holds, unread, Next, read-Holds, new_stream-Holds}
use mixlab.Icecast.Http.{
  Request, Parsed, failed, partial, complete, Http, Error, RequestInfo, on_complete,
  no_content_type, no_path, headers_too_long, answer, extended, received, read_request, parse,
  header_text, find_header, content_type_name, content_type_of, ok_or,
}

-- What is relied on of httparse: the head that it finds lies within the bytes.
pub record HttpLaws (H : Http) : Type 0 where
  pub head_within :
      (buff : List ℕ) (request : Request) (len : ℕ)
      → H.parse_request buff ≡ complete request len
      → len ≤ length buff

module _ {T : Tcp} {H : Http} where
  -- A request that is accepted stands at the start of the bytes, and its data are the rest.
  abbrev Answers : List ℕ → Result (Error T H) RequestInfo → Type 0
  Answers buff result =
      (result ≢ panic)
      × ((info : RequestInfo)
          → result ≡ ok info
          → (head : List ℕ) × (request : Request) × (head ++ info.stream_data ≡ buff)
            × (H.parse_request buff ≡ complete request (length head)))

  on_complete-data :
      (request : Request) (given : List ℕ) (text path : Option (List ℕ))
      → let result : Result (Error T H) RequestInfo = ok_or no_content_type text >>= λ text.
          ok_or no_path path >>= λ path.
          ok (record { path = path; content_type = content_type_of text; stream_data = given }) in
        (result ≢ panic) × ((info : RequestInfo) → result ≡ ok info → given ≡ info.stream_data)
  unfolding ok_or
  on_complete-data request given none path = ((λ e. cc e), λ info e. cc e)
  on_complete-data request given (some text) none = ((λ e. cc e), λ info e. cc e)
  on_complete-data request given (some text) (some path) = ((λ e. cc e), λ info e. cc e)

module _ {T : Tcp} {H : Http} (http_laws : HttpLaws H) where
  complete-Answers :
      (buff : List ℕ) (request : Request) (len : ℕ)
      → H.parse_request buff ≡ complete request len
      → Answers {T = T} {H = H} buff (on_complete request (drop len buff))
  unfolding on_complete
  complete-Answers buff request len e =
      let within = http_laws.head_within buff request len e in
      let (returns, given) =
        on_complete-data {T = T} {H = H} request (drop len buff)
          (header_text H (find_header content_type_name request.headers)) request.path in
      (
        returns,
        λ info e'. (
          take len buff,
          request,
          ap (λ xs. take len buff ++ xs) (sym (given info e')) ∙ append-take-drop len buff,
          e ∙ ap (complete request) (sym (length-take len buff within)),
        ),
      )

  answer-Answers :
      (buff : List ℕ) (parsed : Parsed H.HttpError) (result : Result (Error T H) RequestInfo)
      → H.parse_request buff ≡ parsed
      → answer buff parsed ≡ some result
      → Answers buff result
  unfolding answer
  answer-Answers buff (failed x) result e e' =
      subst (Answers buff) (some_inj e') ((λ q. cc q), λ info q. cc q)
  answer-Answers buff partial result e e' = cc e'
  answer-Answers buff (complete request len) result e e' =
      let within = http_laws.head_within buff request len e in
      let given : answer {T = T} {H = H} buff (complete request len)
          ≡ some (on_complete request (drop len buff)) =
        rw (answer, not_lt→ltb (length buff) len within) refl in
      subst (Answers buff) (some_inj (sym given ∙ e')) (complete-Answers buff request len e)

module _ {T : Tcp} {H : Http} (laws : TcpLaws T) (http_laws : HttpLaws H) where
  -- What became of the bytes: the stream still gives those after the data.
  abbrev pub Keeps : List ℕ → Result (Error T H) RequestInfo → PeekTcpStream T → Type 0
  Keeps bytes result s =
      (result ≢ panic)
      × ((info : RequestInfo)
          → result ≡ ok info
          → (head : List ℕ) × (request : Request) × (length head + length info.stream_data ≤ 4096)
            × (head ++ info.stream_data ++ unread laws s ≡ bytes)
            × (H.parse_request (head ++ info.stream_data) ≡ complete request (length head)))

  abbrev Turn :
      List ℕ → PeekTcpStream T → PeekTcpStream T → Result (Error T H) RequestInfo ⊎ List ℕ → Type 0
  Turn buff s s' (inl result) = Keeps (buff ++ unread laws s) result s'
  Turn buff s s' (inr buff') =
      (length buff < length buff')
      × (length buff' ≤ 4096)
      × (buff' ++ unread laws s' ≡ buff ++ unread laws s)

  Answers-Keeps :
      (buff bytes : List ℕ) (s : PeekTcpStream T) (result : Result (Error T H) RequestInfo)
      → length buff ≤ 4096
      → buff ++ unread laws s ≡ bytes
      → Answers buff result
      → Keeps bytes result s
  Answers-Keeps buff bytes s result short all (returns, given) = (
    returns,
    λ info e.
        let (head, request, split, parsed) = given info e in
        (
          head,
          request,
          omega (arith, length-append head info.stream_data, ap length split),
          ap (λ xs. xs ++ unread laws s) split ∙ all,
          ap H.parse_request split ∙ parsed,
        ),
  )

  received-Turn :
      (buff : List ℕ) (s s' : PeekTcpStream T) (result : Result T.IoError (List ℕ))
      → length buff ≤ 4096
      → Next laws s (4096 - length buff) (result, s')
      → Turn buff s s' (received (extended buff result))
  unfolding received extended
  received-Turn buff s s' (ok []) h next = ((λ q. cc q), λ info q. cc q)
  received-Turn buff s s' (err x) h next = ((λ q. cc q), λ info q. cc q)
  received-Turn buff s s' panic h (holds, returns, next) = absurd (returns refl)
  received-Turn buff s s' (ok (byte ∷ bytes)) h (holds, returns, next) =
      let (short, all) = next (byte ∷ bytes) refl in
      let buff' = buff ++ (byte ∷ bytes) in
      let grown : length buff' ≡ length buff + length (byte ∷ bytes) =
        length-append buff (byte ∷ bytes) in
      let bytes_kept : buff' ++ unread laws s' ≡ buff ++ unread laws s =
        append_assoc buff (byte ∷ bytes) (unread laws s') ∙ ap (λ xs. buff ++ xs) all in
      elim (Option-cases (answer {T = T} {H = H} buff' (H.parse_request buff'))) [
        | inl e ↦ rw (Turn, received, e) (omega (arith, grown), omega (arith, grown), bytes_kept)
        | inr (r, e) ↦
            rw (Turn, received, e)
              (Answers-Keeps buff' (buff ++ unread laws s) s' r (omega (arith, grown)) bytes_kept
                (answer-Answers http_laws buff' (H.parse_request buff') r refl e))
      ]

  abbrev Ends : ℕ → PeekTcpStream T → List ℕ → Type 0
  Ends fuel s buff =
      (result : Result (Error T H) RequestInfo) × (s' : PeekTcpStream T) × (read_request fuel s buff
        ≡ some (result, s'))
      × Keeps (buff ++ unread laws s) result s'

  Turn-Ends :
      (fuel : ℕ) (s s' : PeekTcpStream T) (buff : List ℕ)
      (turn : Result (Error T H) RequestInfo ⊎ List ℕ)
      → Turn buff s s' turn
      → ((buff' : List ℕ) → length buff < length buff' → length buff' ≤ 4096 → Ends fuel s' buff')
      → let outcome : Option (Result (Error T H) RequestInfo × PeekTcpStream T) = elim turn [
        | inl result ↦ some (result, s')
        | inr buff' ↦ read_request fuel s' buff'
      ] in
        (result : Result (Error T H) RequestInfo) × (end : PeekTcpStream T) × (outcome
          ≡ some (result, end))
        × Keeps (buff ++ unread laws s) result end
  Turn-Ends fuel s s' buff (inl result) keeps later = (result, s', refl, keeps)
  Turn-Ends fuel s s' buff (inr buff') (longer, short, all) later =
      let (result, end, e, keeps) = later buff' longer short in
      (result, end, e, subst (λ bytes. Keeps bytes result end) all keeps)

  read_request-Ends :
      (fuel : ℕ) (s : PeekTcpStream T) (buff : List ℕ)
      → Holds laws s
      → length buff ≤ 4096
      → 4096 - length buff < fuel
      → Ends fuel s buff
  unfolding read_request
  read_request-Ends zero s buff holds short enough = absurd (omega arith)
  read_request-Ends (suc fuel) s buff holds short enough = elim (Bool-cases (length buff == 4096)) [
    | inl e ↦ (err headers_too_long, s, rw (read_request, e) refl, ((λ q. cc q), λ info q. cc q))
    | inr e ↦
        let next = read-Holds laws s (4096 - length buff) holds in
        let (bytes, s') = read s (4096 - length buff) in
        let (result, end, e', keeps) =
          Turn-Ends fuel s s' buff (received (extended buff bytes))
            (received-Turn buff s s' bytes short next)
            (λ buff' longer short'. read_request-Ends fuel s' buff' next.0 short' (omega arith)) in
        (result, end, rw (read_request, e) e', keeps)
  ]

  -- Parsing the request at the start of a connection ends within the fuel, without a panic. When it
  -- gives a request, the bytes of the connection are the head that httparse takes for the request,
  -- the data that the request carries on, and the bytes that the stream still gives: nothing is
  -- lost, not the bytes that were peeked at either. The head and the data have at most 4096 bytes.
  pub request_kept :
      (c : T.Conn) (s : PeekTcpStream T)
      → new_stream c ≡ ok s
      → (result : Result (Error T H) RequestInfo) × (s' : PeekTcpStream T) × (parse s
          ≡ some (result, s'))
        × Keeps (laws.to_come c) result s'
  unfolding parse
  request_kept c s e =
      let (holds, all) = new_stream-Holds laws c s e in
      let (result, s', e', keeps) = read_request-Ends 4097 s [] holds (omega arith) (omega arith) in
      (result, s', e', subst (λ bytes. Keeps bytes result s') all keeps)
