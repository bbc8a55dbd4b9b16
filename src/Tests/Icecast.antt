-- ===== src/Tests/Icecast.antt =====
-- A broadcaster's request, by a parser for which a head has nine bytes.
use mixlab.Prelude.{
  ℕ, ◌≡◌, ◌≤◌, refl, List, [], ◌∷◌, ◌++◌, some, subst, ltb, Bool, true, false, not_ltb→le,
}
use mixlab.Prelude.Lists.{
  same_text, length, take, drop, length-take_le, length-take, append-take-drop,
}
use mixlab.Prelude.Result.{Result, ok, err}
use mixlab.Listen.{Tcp, PeekTcpStream, source_bytes, opened, new_stream, read, min}
use mixlab.Listen.Unread.{TcpLaws}
use mixlab.Icecast.Http.{
  Request, Parsed, partial, complete, Http, ogg, read_request, extended, received, answer,
  on_complete, ok_or, header_text, find_header, same_ignoring_case, lower, content_type_of, Error,
  RequestInfo, content_type_name, audio_ogg, parse,
}
use mixlab.Icecast.Http.Kept.{HttpLaws, Keeps, request_kept}

-- A connection is the list of the bytes that come.
abbrev exactly : Bool → List ℕ → ℕ → Result (Unit {0}) (List ℕ) × List ℕ
exactly true c n = (err tt, c)
exactly false c n = (ok (take n c), drop n c)

abbrev tcp : Tcp
tcp = record {
  Conn = List ℕ;
  IoError = Unit {0};
  read = λ c n. (ok (take n c), drop n c);
  read_exact = λ c n. exactly (ltb (length c) n) c n;
}

read_lem :
    (c : List ℕ) (n : ℕ) (bytes : List ℕ)
    → (tcp.read c n).0 ≡ ok bytes
    → (length bytes ≤ n) × (bytes ++ (tcp.read c n).1 ≡ c)
read_lem c n bytes e =
    let same : take n c ≡ bytes = cc e in
    subst (λ (bytes : List ℕ). (length bytes ≤ n) × (bytes ++ drop n c ≡ c)) same
      (length-take_le n c, append-take-drop n c)

read_exact_lem :
    (c : List ℕ) (n : ℕ) (bytes : List ℕ) (short : Bool)
    → ltb (length c) n ≡ short
    → (exactly short c n).0 ≡ ok bytes
    → (length bytes ≡ n) × (bytes ++ (exactly short c n).1 ≡ c)
read_exact_lem c n bytes true less e = cc e
read_exact_lem c n bytes false less e =
    let same : take n c ≡ bytes = cc e in
    subst (λ (bytes : List ℕ). (length bytes ≡ n) × (bytes ++ drop n c ≡ c)) same
      (length-take n c (not_ltb→le (length c) n less), append-take-drop n c)

abbrev tcp_laws : TcpLaws tcp
tcp_laws = record {
  to_come = λ c. c;
  read_next = read_lem;
  read_exact_next = λ c n bytes. read_exact_lem c n bytes (ltb (length c) n) refl;
  read_returns = λ c n e. cc e;
}

abbrev request : Request
request = record {
  path = some (47 ∷ 97 ∷ []);
  headers = record { name = content_type_name; value = audio_ogg } ∷ [];
}

-- A head is the first nine bytes.
abbrev parsed : Bool → Parsed (Unit {0})
parsed true = partial
parsed false = complete request 9

abbrev http : Http
http = record {
  HttpError = Unit {0};
  parse_request = λ buff. parsed (ltb (length buff) 9);
  from_utf8 = λ text. some text;
}

head_lem :
    (buff : List ℕ) (r : Request) (len : ℕ) (short : Bool)
    → ltb (length buff) 9 ≡ short
    → parsed short ≡ complete r len
    → len ≤ length buff
head_lem buff r len true less e = absurd (cc e)
head_lem buff r len false less e =
    let same : 9 ≡ len = cc e in subst (λ n. n ≤ length buff) same (not_ltb→le (length buff) 9 less)

abbrev http_laws : HttpLaws http
http_laws = record { head_within = λ buff r len. head_lem buff r len (ltb (length buff) 9) refl }

-- "SOURCE ", a character, a line feed and three bytes of sound.
abbrev bytes : List ℕ
bytes = source_bytes ++ (47 ∷ 10 ∷ 1 ∷ 2 ∷ 3 ∷ [])

abbrev stream : PeekTcpStream tcp
stream = record { peek = source_bytes; offset = 0; conn = 47 ∷ 10 ∷ 1 ∷ 2 ∷ 3 ∷ [] }

request_kept_example :
    (result : Result (Error tcp http) RequestInfo) × (s' : PeekTcpStream tcp) × (parse stream
      ≡ some (result, s'))
    × Keeps tcp_laws http_laws bytes result s'
unfolding new_stream opened
request_kept_example = request_kept tcp_laws http_laws bytes stream refl

-- The data of this request: the three bytes that came with its head.
parse_ogg :
    parse {H = http} stream
    ≡ some (
      ok (record { path = 47 ∷ 97 ∷ []; content_type = some ogg; stream_data = 1 ∷ 2 ∷ 3 ∷ [] }),
      record stream { offset = 7; conn = [] },
    )
unfolding parse read_request read min extended received answer on_complete ok_or header_text
    find_header same_ignoring_case lower content_type_of same_text
parse_ogg = refl
