-- ===== src/Http.antt =====
-- lib_src/http/mln_lang_http.c: what parse and create share, the HTTP message as Melon keeps it and the
-- array that a script has for it.
pub mod Parse
pub mod Create
pub mod RoundTrip
pub mod Bounds
pub mod Https
mod Tests
use Prim.Native.String.{String}
use text.Mathlib.Text.{◌==◌ as str_eq}
use melang.Base.{
  ℕ, zero, suc, ◌+◌, ◌^◌, Bool, List, [], ◌∷◌, Option, none, some, leb, bytes_eq, if◌then◌else◌,
}
use melang.Script.{Bytes, Value, Result, ok, err, no_memory}

-- M_HTTP_REQUEST, M_HTTP_RESPONSE and M_HTTP_UNKNOWN.
pub data Kind : Type 0 where
  request : Kind
  response : Kind
  unknown : Kind

-- mln_http_t, with the header fields in a table of type `H`. `none` is a string that is NULL.
pub record Message (H : Type 0) : Type 0 where
  pub kind : Kind
  pub method : ℕ
  pub version : ℕ
  pub status : ℕ
  pub uri : Option Bytes
  pub args : Option Bytes
  pub headers : H

-- What mln_http_data_get returns: a buffer with its bytes from left_pos to the end, or the array of a
-- request that is made. Taken for a buffer, the array's first member stands in the place of left_pos: by
-- how much that pointer has been moved, and the bytes from there on, `none` where as many cannot be read.
pub data Source : Type 0 where
  buffer : Bytes → Source
  dictionary : ℕ → (ℕ → Option Bytes) → Source

-- What a body handler tells Melon.
pub data Verdict : Type 0 where
  done : Verdict
  more : Verdict
  error : Verdict

-- What mln_http_parse leaves: the message and what is behind its header, or that the data is no message
-- or not all of one.
pub data Parsed (H : Type 0) : Type 0 where
  complete : Message H → Bytes → Parsed H
  incomplete : Parsed H
  broken : Parsed H

-- What the library takes from Melon and C: the table of header fields (`none` is a field that is not
-- there, or memory that is refused), a new message, its status of an integer, the parser and the
-- generator, each with a body handler, atol as the 64 bits of its answer, and
-- the text that snprintf makes of a length.
pub record Melon (H : Type 0) : Type 0 where
  pub new : Message H
  pub field_get : H → Bytes → Option Bytes
  pub field_set : H → Bytes → Bytes → Option H
  pub fields : H → List (Bytes × Bytes)
  pub status_of : ℕ → ℕ
  pub parse : (Message H → List Bytes → Verdict) → Bytes → Parsed H
  pub generate : (Message H → Result (Message H × List Bytes)) → Message H → Result (List Bytes)
  pub atol : Bytes → ℕ
  pub print_length : ℕ → Bytes

-- An element of the script's array. `nothing` is nil.
pub data Entry : Type 0 where
  nothing : Entry
  number : ℕ → Entry
  chars : Bytes → Entry
  elements : List (Value × Value) → Entry
  other : Entry

abbrev pub Dictionary : Type 0
Dictionary = String → Entry

-- The array with these elements, where a key without one is made with nil.
unfoldable pub found : List (String × Entry) → Dictionary
found [] k = nothing
found ((l, e) ∷ es) k = let rest = found es k in if str_eq k l then e else rest

abbrev pub content_length_name : Bytes
content_length_name =
    b'C' ∷ b'o' ∷ b'n' ∷ b't' ∷ b'e' ∷ b'n' ∷ b't' ∷ b'-' ∷ b'L' ∷ b'e' ∷ b'n' ∷ b'g' ∷ b't' ∷ b'h'
    ∷ []

abbrev pub request_name : Bytes
request_name = b'r' ∷ b'e' ∷ b'q' ∷ b'u' ∷ b'e' ∷ b's' ∷ b't' ∷ []

abbrev pub response_name : Bytes
response_name = b'r' ∷ b'e' ∷ b's' ∷ b'p' ∷ b'o' ∷ b'n' ∷ b's' ∷ b'e' ∷ []

-- GET, POST, HEAD, PUT, DELETE, TRACE, CONNECT and OPTIONS, in the order of M_HTTP_GET and so on.
abbrev pub methods : List Bytes
methods =
    (b'G' ∷ b'E' ∷ b'T' ∷ [])
    ∷ (b'P' ∷ b'O' ∷ b'S' ∷ b'T' ∷ [])
    ∷ (b'H' ∷ b'E' ∷ b'A' ∷ b'D' ∷ [])
    ∷ (b'P' ∷ b'U' ∷ b'T' ∷ [])
    ∷ (b'D' ∷ b'E' ∷ b'L' ∷ b'E' ∷ b'T' ∷ b'E' ∷ [])
    ∷ (b'T' ∷ b'R' ∷ b'A' ∷ b'C' ∷ b'E' ∷ [])
    ∷ (b'C' ∷ b'O' ∷ b'N' ∷ b'N' ∷ b'E' ∷ b'C' ∷ b'T' ∷ [])
    ∷ (b'O' ∷ b'P' ∷ b'T' ∷ b'I' ∷ b'O' ∷ b'N' ∷ b'S' ∷ [])
    ∷ []

-- 1.0 and 1.1.
abbrev pub versions : List Bytes
versions = (b'1' ∷ b'.' ∷ b'0' ∷ []) ∷ (b'1' ∷ b'.' ∷ b'1' ∷ []) ∷ []

-- The name with an index, and the index of a name in the loops of create, from `i` on.
unfoldable pub nth : List Bytes → ℕ → Option Bytes
nth [] i = none
nth (s ∷ ss) zero = some s
nth (s ∷ ss) (suc i) = nth ss i

unfoldable pub index_of : List Bytes → Bytes → ℕ → Option ℕ
index_of [] s i = none
index_of (t ∷ ts) s i = let rest = index_of ts s (i + 1) in if bytes_eq s t then some i else rest

-- A signed number of 64 bits below 0.
abbrev pub negative : ℕ → Bool
negative n = leb (2 ^ 63) n
