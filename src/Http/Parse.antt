-- ===== src/Http/Parse.antt =====
-- http.parse: the body handler given to Melon's parser, and the array that is made of the message.
use Prim.Native.String.{String}
use melang.Base.{
  ℕ, ◌+◌, Bool, true, false, List, [], ◌∷◌, ◌++◌, Option, none, some, map, ◌==◌, leb, length, take,
  drop, if◌then◌else◌,
}
use melang.Script.{
  Bytes, Value, string, Env, Result, ok, err, fault, no_memory, invalid_argument, message, ◌>>=◌,
  asserted,
}
use melang.Http.{
  Kind, request, response, unknown, Message, Source, buffer, dictionary, Verdict, done, more, error,
  Parsed, complete, incomplete, broken, Melon, Entry, number, chars, elements, content_length_name,
  request_name, response_name, methods, versions, nth, negative,
}

-- The array that is made, its elements in the order in which they are.
abbrev pub Entries : Type 0
Entries = List (String × Entry)

-- The loop over the chain: is there a body of `len` bytes, with `size` counted?
unfoldable pub reaches : List Bytes → ℕ → ℕ → Bool
reaches [] size len = false
reaches (b ∷ bs) size len =
    let rest = reaches bs (size + length b) len in if leb len (size + length b) then true else rest

-- Everything that one element asks for is granted, or not; all that is refused ends with "No memory.".
abbrev pub put : (String → Bool) → String → Entry → Entries → Result Entries
put g k e es = if g k then ok (es ++ (k, e) ∷ []) else err no_memory

abbrev pub named : String → Option Bytes → Result Bytes
named error_text none = err (message error_text)
named error_text (some s) = ok s

-- A string that is NULL is handed to the interpreter to be copied.
abbrev pub not_null : Option Bytes → Result Bytes
not_null none = fault
not_null (some s) = ok s

abbrev pub or_empty : Option Bytes → Bytes
or_empty none = []
or_empty (some s) = s

abbrev pub pair : Bytes × Bytes → Value × Value
pair (k, v) = (string k, string v)

abbrev pub behind : ℕ → Option Bytes → Option Bytes
behind len none = none
behind len (some bs) = some (drop len bs)

abbrev pub cut_array : ℕ → (ℕ → Option Bytes) → ℕ → Option Bytes → Result (Bytes × Source)
cut_array moved memory len none = fault
cut_array moved memory len (some bs) =
    ok (bs, dictionary (moved + len) (λ k. behind len (memory (len + k))))

-- `len` bytes from left_pos on, which is then moved behind them. Bytes behind the buffer are not the
-- library's.
abbrev pub cut : Source → ℕ → Result (Bytes × Source)
cut (buffer left) len =
    if leb len (length left) then ok (take len left, buffer (drop len left)) else fault
cut (dictionary moved memory) len = cut_array moved memory len (memory len)

-- What the array and its elements are granted, and what parse is: the connection, chain, buffer and
-- parser, the value nil or false, and the string of the bytes behind the message.
pub record BuildGrants : Type 0 where
  pub array : Bool
  pub elem : String → Bool

pub record ParseGrants : Type 0 where
  pub parser : Bool
  pub build : BuildGrants
  pub value : Bool
  pub rest : Bool

abbrev pub if_granted : Bool → Result (Entries × Source) → Result (Entries × Source)
if_granted true r = r
if_granted false r = err no_memory

-- The array of a message, false for data that is no message, nil where it is not all of one.
pub data Answer : Type 0 where
  parsed : Entries → Answer
  no_message_parsed : Answer
  not_all : Answer

-- The string that the argument data holds afterwards, where it was written, and the answer.
pub record Outcome : Type 0 where
  pub written : Option Bytes
  pub answer : Result Answer

abbrev pub unwritten : Result Answer → Outcome
unwritten r = record { written = none; answer = r }

abbrev pub data_of : Value → Result Bytes
data_of (string s) = ok s
data_of v = err (invalid_argument 1)

-- What the call leaves once it has an answer: the bytes behind the message, if there are any, are
-- written to the string of the argument.
abbrev pub rest_written : Bool → Entries → Source → Outcome
rest_written true es (buffer (b ∷ bs)) = record { written = some (b ∷ bs); answer = ok (parsed es) }
rest_written false es (buffer (b ∷ bs)) = record { written = none; answer = err no_memory }
rest_written val es from = record { written = none; answer = ok (parsed es) }

abbrev pub built : Bool → Result (Entries × Source) → Outcome
built rest (ok (es, from)) = rest_written rest es from
built rest (err e) = unwritten (err e)
built rest fault = unwritten fault

-- One call after the other, until one fails.
unfoldable pub run : List (Entries → Result Entries) → Entries → Result Entries
run [] es = ok es
run (step ∷ steps) es = step es >>= run steps

module _ {H : Type 0} (melon : Melon H) where
  -- mln_lang_http_parse_body_handler
  abbrev pub verdict_of : Option Bytes → List Bytes → Verdict
  verdict_of none chain = done
  verdict_of (some v) chain =
      if melon.atol v == 0
      then done
      else (if negative (melon.atol v)
          then error
          else (if reaches chain 0 (melon.atol v) then done else more))

  unfoldable pub parse_body_handler : Message H → List Bytes → Verdict
  parse_body_handler m chain = verdict_of (melon.field_get m.headers content_length_name) chain

  abbrev pub result_build_type : (String → Bool) → Bytes → Entries → Result Entries
  result_build_type g kind es = put g "type" (chars kind) es

  abbrev pub request_result_build_method : (String → Bool) → Message H → Entries → Result Entries
  request_result_build_method g m es = do
    s ← named "Invalid HTTP request method." (nth methods m.method)
    put g "method" (chars s) es

  -- For a request and for a response, with another text for the error.
  abbrev pub result_build_version : String → (String → Bool) → Message H → Entries → Result Entries
  result_build_version error_text g m es = do
    s ← named error_text (nth versions m.version)
    put g "version" (chars s) es

  abbrev pub request_result_build_uri : (String → Bool) → Message H → Entries → Result Entries
  request_result_build_uri g m es = not_null m.uri >>= λ s. put g "uri" (chars s) es

  abbrev pub request_result_build_args : (String → Bool) → Message H → Entries → Result Entries
  request_result_build_args g m es = put g "args" (chars (or_empty m.args)) es

  abbrev pub response_result_build_code : (String → Bool) → Message H → Entries → Result Entries
  response_result_build_code g m es = put g "code" (number m.status) es

  abbrev pub result_build_headers : (String → Bool) → Message H → Entries → Result Entries
  result_build_headers g m es = put g "headers" (elements (map pair (melon.fields m.headers))) es

  abbrev pub body_of : Option Bytes → Source → Result (Bytes × Source)
  body_of none from = ok ([], from)
  body_of (some v) from =
      if negative (melon.atol v)
      then err (message "Invalid Content-Length")
      else (if melon.atol v == 0 then ok ([], from) else cut from (melon.atol v))

  unfoldable pub result_build_body :
      (String → Bool) → Message H → Source → Entries → Result (Entries × Source)
  result_build_body g m from es = do
    (body, left) ← body_of (melon.field_get m.headers content_length_name) from
    es' ← put g "body" (chars body) es
    ok (es', left)

  -- The elements before the body.
  abbrev pub request_fields : (String → Bool) → Message H → Result Entries
  request_fields g m =
      run
        (result_build_type g request_name
          ∷ request_result_build_method g m
          ∷ result_build_version "Invalid HTTP request version." g m
          ∷ request_result_build_uri g m
          ∷ request_result_build_args g m
          ∷ result_build_headers g m
          ∷ [])
        []

  abbrev pub response_fields : (String → Bool) → Message H → Result Entries
  response_fields g m =
      run
        (result_build_type g response_name
          ∷ result_build_version "Invalid HTTP response version." g m
          ∷ response_result_build_code g m
          ∷ result_build_headers g m
          ∷ [])
        []

  unfoldable pub request_result_build :
      (String → Bool) → Message H → Source → Result (Entries × Source)
  request_result_build g m from = request_fields g m >>= result_build_body g m from

  unfoldable pub response_result_build :
      (String → Bool) → Message H → Source → Result (Entries × Source)
  response_result_build g m from = response_fields g m >>= result_build_body g m from

  abbrev pub build_of : Kind → BuildGrants → Message H → Source → Result (Entries × Source)
  build_of request g m from = if_granted g.array (request_result_build g.elem m from)
  build_of response g m from = if_granted g.array (response_result_build g.elem m from)
  build_of unknown g m from = err (message "Invalid HTTP data.")

  unfoldable pub result_build : BuildGrants → Message H → Source → Result (Entries × Source)
  result_build g m from = build_of m.kind g m from

  -- What is left of the source where the call ends, also where the body's string is refused after
  -- left_pos has been moved.
  abbrev pub cut_left : Source → Result (Bytes × Source) → Source
  cut_left from (ok (body, left)) = left
  cut_left from r = from

  abbrev pub body_left : Result Entries → Message H → Source → Source
  body_left (ok es) m from =
      cut_left from (body_of (melon.field_get m.headers content_length_name) from)
  body_left r m from = from

  abbrev pub left_of : Kind → (String → Bool) → Message H → Source → Source
  left_of request g m from = body_left (request_fields g m) m from
  left_of response g m from = body_left (response_fields g m) m from
  left_of unknown g m from = from

  unfoldable pub result_left : BuildGrants → Message H → Source → Source
  result_left g m from = if g.array then left_of m.kind g.elem m from else from

  abbrev pub answered : ParseGrants → Parsed H → Outcome
  answered g (complete m left) = built g.rest (result_build g.build m (buffer left))
  answered g broken = unwritten (if g.value then ok no_message_parsed else err no_memory)
  answered g incomplete = unwritten (if g.value then ok not_all else err no_memory)

  abbrev pub parse_data : ParseGrants → Bytes → Outcome
  parse_data g [] = unwritten (if g.value then ok not_all else err no_memory)
  parse_data g (b ∷ bs) =
      if g.parser
      then answered g (melon.parse parse_body_handler (b ∷ bs))
      else unwritten (err no_memory)

  abbrev pub parse_arg : ParseGrants → Result Bytes → Outcome
  parse_arg g (ok s) = parse_data g s
  parse_arg g (err e) = unwritten (err e)
  parse_arg g fault = unwritten fault

  unfoldable pub parse_process : ParseGrants → Env → Outcome
  parse_process g env = parse_arg g (asserted (env "data") >>= data_of)
