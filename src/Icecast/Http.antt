-- ===== src/Icecast/Http.antt =====
-- src/icecast/http.rs: the request at the start of a broadcaster's stream.
pub mod Kept
use mixlab.Prelude.{
  ℕ, zero, suc, ◌+◌, ◌-◌, ◌⊎◌, inl, inr, Bool, ◌&&◌, ◌||◌, List, [], ◌∷◌, ◌++◌, map, Option, none,
  some, if◌then◌else◌, ltb, leb, ◌==◌,
}
use mixlab.Prelude.Lists.{length, drop, same_text}
use mixlab.Prelude.Result.{Result, ok, err, panic, ◌>>=◌}
use mixlab.Listen.{Tcp, PeekTcpStream, read}

pub record Header : Type 0 where
  pub name : List ℕ
  pub value : List ℕ

pub record Request : Type 0 where
  pub path : Option (List ℕ)
  pub headers : List Header

-- What the crate httparse makes of the bytes so far.
pub data Parsed (HttpError : Type 0) : Type 0 where
  failed : HttpError → Parsed HttpError
  partial : Parsed HttpError
  -- the request, and the length of its head
  complete : Request → ℕ → Parsed HttpError

pub record Http : Type 1 where
  pub HttpError : Type 0
  -- with room for 32 headers
  pub parse_request : List ℕ → Parsed HttpError
  -- `str::from_utf8`
  pub from_utf8 : List ℕ → Option (List ℕ)

module _ (T : Tcp) (H : Http) where
  pub data Error : Type 0 where
    io : T.IoError → Error
    http : H.HttpError → Error
    eof : Error
    headers_too_long : Error
    no_path : Error
    no_content_type : Error

pub data ContentType : Type 0 where
  ogg : ContentType

pub record RequestInfo : Type 0 where
  pub path : List ℕ
  pub content_type : Option ContentType
  pub stream_data : List ℕ

-- `eq_ignore_ascii_case`
unfoldable pub lower : ℕ → ℕ
lower c = if leb 65 c && leb c 90 then c + 32 else c

unfoldable pub same_ignoring_case : List ℕ → List ℕ → Bool
unfolding same_text lower
same_ignoring_case a b = same_text (map lower a) (map lower b)

-- "content-type"
abbrev pub content_type_name : List ℕ
content_type_name = 99 ∷ 111 ∷ 110 ∷ 116 ∷ 101 ∷ 110 ∷ 116 ∷ 45 ∷ 116 ∷ 121 ∷ 112 ∷ 101 ∷ []

-- "application/ogg"
abbrev pub application_ogg : List ℕ
application_ogg =
    97 ∷ 112 ∷ 112 ∷ 108 ∷ 105 ∷ 99 ∷ 97 ∷ 116 ∷ 105 ∷ 111 ∷ 110 ∷ 47 ∷ 111 ∷ 103 ∷ 103 ∷ []

-- "audio/ogg"
abbrev pub audio_ogg : List ℕ
audio_ogg = 97 ∷ 117 ∷ 100 ∷ 105 ∷ 111 ∷ 47 ∷ 111 ∷ 103 ∷ 103 ∷ []

unfoldable pub find_header : List ℕ → List Header → Option Header
unfolding same_ignoring_case
find_header name [] = none
find_header name (header ∷ rest) =
    let later = find_header name rest in
    if same_ignoring_case header.name name then some header else later

unfoldable pub content_type_of : List ℕ → Option ContentType
unfolding same_text
content_type_of text =
    if same_text text application_ogg || same_text text audio_ogg then some ogg else none

unfoldable pub ok_or {ℓ κ} : {E : Type κ} {A : Type ℓ} → E → Option A → Result E A
ok_or e none = err e
ok_or e (some a) = ok a

unfoldable pub header_text : Http → Option Header → Option (List ℕ)
header_text H none = none
header_text H (some header) = H.from_utf8 header.value

module _ {T : Tcp} {H : Http} where
  unfoldable pub on_complete : Request → List ℕ → Result (Error T H) RequestInfo
  unfolding ok_or header_text find_header content_type_of
  on_complete request stream_data =
      ok_or no_content_type (header_text H (find_header content_type_name request.headers))
      >>= λ text. ok_or no_path request.path >>= λ path.
          ok
            (record { path = path; content_type = content_type_of text; stream_data = stream_data })

  -- What follows a read of some bytes: an answer, or none to read on.
  unfoldable pub answer : List ℕ → Parsed H.HttpError → Option (Result (Error T H) RequestInfo)
  unfolding on_complete
  answer buff (failed e) = some (err (http e))
  answer buff partial = none
  answer buff (complete request len) =
      some (if ltb (length buff) len then panic else on_complete request (drop len buff))

  -- The bytes after a read, or the error that ends the loop.
  unfoldable pub extended : List ℕ → Result T.IoError (List ℕ) → Result (Error T H) (List ℕ)
  extended buff (ok []) = err eof
  extended buff (ok (byte ∷ bytes)) = ok (buff ++ (byte ∷ bytes))
  extended buff (err e) = err (io e)
  extended buff panic = panic

  -- A turn of the loop: the answer, or the longer buffer.
  unfoldable pub received : Result (Error T H) (List ℕ) → Result (Error T H) RequestInfo ⊎ List ℕ
  unfolding answer
  received (ok buff) = elim (answer buff (H.parse_request buff)) [
    | none ↦ inr buff
    | some result ↦ inl result
  ]
  received (err e) = inl (err e)
  received panic = inl panic

  -- The loop from a buffer that holds `buff`; none when the fuel is out.
  unfoldable pub read_request :
      ℕ → PeekTcpStream T → List ℕ → Option (Result (Error T H) RequestInfo × PeekTcpStream T)
  unfolding read extended received
  read_request zero s buff = none
  read_request (suc fuel) s buff =
      let (bytes, s') = read s (4096 - length buff) in
      if length buff == 4096
      then some (err headers_too_long, s)
      else elim (received (extended buff bytes)) [
        | inl result ↦ some (result, s')
        | inr buff' ↦ read_request fuel s' buff'
      ]

  unfoldable pub parse : PeekTcpStream T → Option (Result (Error T H) RequestInfo × PeekTcpStream T)
  unfolding read_request
  parse s = read_request 4097 s []
