-- ===== src/Gateway/Requests/Defs.antt =====
-- src/wss_gateway/mod.rs: `parse_target_request` and `parse_datagram_open_request`, and the texts
-- that `open_stream` and `open_datagram_path` format.
use newghost.Prelude.{
  ℕ, ◌-◌, ◌^◌, not, ◌||◌, Option, none, some, List, [], ◌∷◌, ◌++◌, ◌==◌, if◌then◌else◌,
}
use newghost.Prelude.Outcome.{Outcome, ok, err, ◌>>=◌, ◌>>◌, reject_if, ok_or}
use newghost.Net.Utf8.{from_utf8}
use newghost.Net.Blank.{is_blank}
use newghost.Net.Decimal.{to_decimal, parse_decimal}
use newghost.Auth.{bytes_eq}
use newghost.Gateway.WebSocket.{
  Message, text, binary, said, quoted, WssError, invalid_target_request,
}

-- `CONNECT`
abbrev pub connect_word : List ℕ
connect_word = 67 ∷ 79 ∷ 78 ∷ 78 ∷ 69 ∷ 67 ∷ 84 ∷ []

-- `DATAGRAM OPEN `
abbrev pub datagram_prefix : List ℕ
datagram_prefix = 68 ∷ 65 ∷ 84 ∷ 65 ∷ 71 ∷ 82 ∷ 65 ∷ 77 ∷ 32 ∷ 79 ∷ 80 ∷ 69 ∷ 78 ∷ 32 ∷ []

-- `format!("CONNECT {} {}", host, port)`
unfoldable pub connect_request : List ℕ → ℕ → Message
unfolding to_decimal
connect_request host port = text (connect_word ++ 32 ∷ (host ++ 32 ∷ to_decimal port))

-- `format!("DATAGRAM OPEN {}", association_id)`
unfoldable pub datagram_open_request : ℕ → Message
unfolding to_decimal
datagram_open_request association_id = text (datagram_prefix ++ to_decimal association_id)

abbrev before : ℕ → List ℕ × List ℕ → List ℕ × List ℕ
before b (part, rest) = (b ∷ part, rest)

-- The part of a text before its first space, and what is behind the space: where there is none,
-- the empty text, as `unwrap_or_default` has it.
unfoldable pub at_space : List ℕ → List ℕ × List ℕ
at_space [] = ([], [])
at_space (b ∷ bs) = let more = before b (at_space bs) in if b == 32 then ([], bs) else more

abbrev pub Request : Type 0 → Type 0
Request A = Outcome WssError A

unfoldable pub request_text : Message → Request (List ℕ)
request_text (text bytes) = ok bytes
request_text (binary bytes) =
    ok_or (from_utf8 bytes) (invalid_target_request (said "target request must be valid UTF-8"))
request_text _ = err (invalid_target_request (said "unsupported target request message type"))

-- `splitn(3, ' ')`: the third part has all that is behind the second space.
unfoldable pub parse_target_text : List ℕ → Request (List ℕ × ℕ)
unfolding at_space is_blank parse_decimal
parse_target_text request = do
  let (method, parts) = at_space request
  let (host, port) = at_space parts
  reject_if (not (bytes_eq method connect_word) || is_blank host || is_blank port)
      (invalid_target_request (quoted request))
  number ← ok_or (parse_decimal (2 ^ 16 - 1) port) (invalid_target_request (quoted request))
  ok (host, number)

unfoldable pub parse_target_request : Message → Request (List ℕ × ℕ)
unfolding request_text parse_target_text
parse_target_request message = do request ← request_text message; parse_target_text request

unfoldable pub strip_prefix : List ℕ → List ℕ → Option (List ℕ)
strip_prefix [] request = some request
strip_prefix (p ∷ ps) [] = none
strip_prefix (p ∷ ps) (b ∷ bs) = let rest = strip_prefix ps bs in if p == b then rest else none

abbrev id_behind : Option (List ℕ) → Option ℕ
id_behind none = none
id_behind (some id) = parse_decimal (2 ^ 64 - 1) id

unfoldable pub parse_datagram_open_request : Message → Option ℕ
unfolding strip_prefix parse_decimal
parse_datagram_open_request (text request) = id_behind (strip_prefix datagram_prefix request)
parse_datagram_open_request (binary bytes) = elim (from_utf8 bytes) [
  | none ↦ none
  | some request ↦ id_behind (strip_prefix datagram_prefix request)
]
parse_datagram_open_request _ = none
