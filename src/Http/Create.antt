-- ===== src/Http/Create.antt =====
-- http.create: the message that is made of a script's array, and the string that Melon's generator makes
-- of it.
use Prim.Native.String.{String}
use melang.Base.{
  ℕ, Bool, true, false, List, [], ◌∷◌, ◌++◌, Option, none, some, bytes_eq, length, ◌==◌,
  if◌then◌else◌,
}
use melang.Script.{
  Bytes, Value, nil, string, array, Env, asserted, invalid_argument, Result, ok, err, no_memory,
  message, ◌>>=◌, granted,
}
use melang.Http.{
  request, response, Message, Melon, Entry, nothing, number, chars, elements, Dictionary,
  content_length_name, request_name, response_name, methods, versions, index_of,
}

-- An element under a key, which is made with nil when it is not there.
abbrev pub get : (String → Bool) → Dictionary → String → Result Entry
get g arr k = if g k then ok (arr k) else err no_memory

abbrev pub chars_or : String → Entry → Result Bytes
chars_or error_text (chars s) = ok s
chars_or error_text e = err (message error_text)

abbrev pub elements_or : String → Entry → Result (List (Value × Value))
elements_or error_text (elements es) = ok es
elements_or error_text e = err (message error_text)

abbrev pub index_or : String → Option ℕ → Result ℕ
index_or error_text none = err (message error_text)
index_or error_text (some i) = ok i

abbrev pub or_no_memory : {A : Type 0} → Option A → Result A
or_no_memory none = err no_memory
or_no_memory (some a) = ok a

-- The chain as one string: the sizes are added up, then the bytes copied.
unfoldable pub joined : List Bytes → Bytes
joined [] = []
joined (b ∷ bs) = b ++ joined bs

abbrev pub generate_string : Bool → List Bytes → Result Bytes
generate_string true chain = ok (joined chain)
generate_string false chain = err no_memory

-- What the elements of the array, the buffer of the body and the string are granted.
pub record CreateGrants : Type 0 where
  pub elem : String → Bool
  pub body : Bool
  pub str : Bool

-- What the call itself is granted: the connection and the message, and the value that it returns.
pub record CallGrants : Type 0 where
  pub message : Bool
  pub value : Bool

-- The array of a number, with how many elements it has.
pub record Arrays : Type 0 where
  pub elems_num : ℕ → ℕ
  pub elems : ℕ → Dictionary

abbrev pub array_arg : Value → Result ℕ
array_arg (array a) = ok a
array_arg v = err (invalid_argument 1)

module _ {H : Type 0} (melon : Melon H) where
  unfoldable pub generate_request_method :
      (String → Bool) → Dictionary → Message H → Result (Message H)
  generate_request_method g arr m = do
    e ← get g arr "method"
    s ← chars_or "'method' should be a string." e
    i ← index_or "Invalid method." (index_of methods s 0)
    ok (record m { method = i })

  unfoldable pub generate_version : (String → Bool) → Dictionary → Message H → Result (Message H)
  generate_version g arr m = do
    e ← get g arr "version"
    s ← chars_or "'version' should be a string." e
    i ← index_or "Invalid version." (index_of versions s 0)
    ok (record m { version = i })

  unfoldable pub generate_request_uri :
      (String → Bool) → Dictionary → Message H → Result (Message H)
  generate_request_uri g arr m = do
    e ← get g arr "uri"
    s ← chars_or "'uri' should be a string." e
    ok (record m { uri = some s })

  unfoldable pub generate_request_args :
      (String → Bool) → Dictionary → Message H → Result (Message H)
  generate_request_args g arr m = do
    e ← get g arr "args"
    s ← chars_or "'args' should be a string." e
    ok (record m { args = some s })

  -- The iteration over the headers by mln_lang_http_create_process_generate_headers_iterate.
  unfoldable pub set_fields : List (Value × Value) → H → Result H
  set_fields [] h = ok h
  set_fields ((string k, string v) ∷ es) h = or_no_memory (melon.field_set h k v) >>= set_fields es
  set_fields ((string k, v) ∷ es) h = err (message "Header's value should be a string.")
  set_fields ((k, v) ∷ es) h = err (message "Header's key should be a string.")

  unfoldable pub generate_headers : (String → Bool) → Dictionary → Message H → Result (Message H)
  generate_headers g arr m = do
    e ← get g arr "headers"
    es ← elements_or "'headers' should be an array." e
    h ← set_fields es m.headers
    ok (record m { headers = h })

  abbrev pub code_of : Entry → Result ℕ
  code_of nothing = ok 200
  code_of (number i) = ok i
  code_of e = err (message "'code' should be an integer.")

  unfoldable pub generate_response_code :
      (String → Bool) → Dictionary → Message H → Result (Message H)
  generate_response_code g arr m = do
    e ← get g arr "code"
    i ← code_of e
    ok (record m { status = melon.status_of i })

  -- The message that is handed to the generator, by the value of 'type'.
  unfoldable pub request_message : (String → Bool) → Dictionary → Message H → Result (Message H)
  request_message g arr m = do
    a ← generate_request_method g arr (record m { kind = request })
    b ← generate_version g arr a
    c ← generate_request_uri g arr b
    d ← generate_request_args g arr c
    generate_headers g arr d

  unfoldable pub response_message : (String → Bool) → Dictionary → Message H → Result (Message H)
  response_message g arr m = do
    a ← generate_version g arr (record m { kind = response })
    b ← generate_response_code g arr a
    generate_headers g arr b

  abbrev pub message_of : (String → Bool) → Dictionary → Message H → Bytes → Result (Message H)
  message_of g arr m s =
      if bytes_eq s request_name
      then request_message g arr m
      else (if bytes_eq s response_name
          then response_message g arr m
          else err (message "Invalid value indexed by 'type' should be 'request' or 'response'."))

  unfoldable pub typed_message : (String → Bool) → Dictionary → Message H → Result (Message H)
  typed_message g arr m = do
    e ← get g arr "type"
    s ← chars_or "'type' should be a string." e
    message_of g arr m s

  -- The length of a body goes to the header when none is there.
  abbrev pub with_length : Bytes → H → Option Bytes → Result H
  with_length s h (some v) = ok h
  with_length s h none =
      or_no_memory (melon.field_set h content_length_name (melon.print_length (length s)))

  abbrev pub with_body : CreateGrants → Message H → Entry → Result (Message H × List Bytes)
  with_body g m nothing = ok (m, [])
  with_body g m (chars []) = ok (m, [])
  with_body g m (chars (b ∷ bs)) = do
    h ← with_length (b ∷ bs) m.headers (melon.field_get m.headers content_length_name)
    if g.body then ok (record m { headers = h }, (b ∷ bs) ∷ []) else err no_memory
  with_body g m e = err (message "'body' should be a string.")

  -- mln_lang_http_create_process_body_handler
  unfoldable pub create_body_handler :
      CreateGrants → Dictionary → Message H → Result (Message H × List Bytes)
  create_body_handler g arr m = get g.elem arr "body" >>= with_body g m

  -- mln_lang_http_create_process_generate
  unfoldable pub generate : CreateGrants → Dictionary → Message H → Result Bytes
  generate g arr m = do
    made ← typed_message g.elem arr m
    chain ← melon.generate (create_body_handler g arr) made
    generate_string g.str chain

  abbrev pub create_array : CallGrants → CreateGrants → Arrays → ℕ → Result Value
  create_array c g arrays a =
      if arrays.elems_num a == 0
      then granted c.value nil
      else (if c.message
          then (generate g (arrays.elems a) melon.new >>= λ s. granted c.value (string s))
          else err no_memory)

  unfoldable pub create_process : CallGrants → CreateGrants → Arrays → Env → Result Value
  create_process c g arrays env = do
    v ← asserted (env "data")
    a ← array_arg v
    create_array c g arrays a
