-- ===== src/Http/Bounds.antt =====
-- What parse reads of the data: the body lies in it, and what is behind stays.
use melang.Base.{
  ◌≡◌, refl, sym, Bool, true, false, List, [], ◌∷◌, ◌++◌, Option, none, some, Bool-cases, inl, inr,
  All, map, ◌==◌, take, drop, take-drop, arith, if◌then◌else◌,
}
use melang.Script.{Bytes, string, Result, ok, err, fault, given, ◌>>=◌}
use Prim.Native.String.{String}
use melang.Base.{
  ◌≡◌, refl, sym, subst, Bool, true, false, List, [], ◌∷◌, ◌++◌, Option, none, some, Bool-cases,
  inl, inr, All, map, ◌==◌, take, drop, take-drop, arith, if◌then◌else◌,
}
use melang.Script.{Bytes, string, Result, ok, err, fault, no_memory, given, ◌>>=◌}
use melang.Http.{
  Kind, request, response, unknown, Message, Source, buffer, done, Melon, Entry, chars, number,
  elements, request_name, response_name, methods, versions, nth, Parsed, complete, incomplete,
  broken, content_length_name,
}
use melang.Http.Parse.{
  reaches, verdict_of, parse_body_handler, body_of, Entries, put, named, not_null, if_granted,
  BuildGrants, ParseGrants, Outcome, Answer, not_all, no_message_parsed, unwritten, rest_written,
  built, answered, run, pair, or_empty, parse_process, result_build_body, request_result_build,
  response_result_build, build_of, result_build,
}

-- A result that is no fault, with `P` of its value.
abbrev pub Ensures {ℓ} : {A : Type ℓ} → (A → Type 0) → Result A → Type 0
Ensures P (ok a) = P a
Ensures P (err e) = Unit
Ensures P fault = ⊥

abbrev pub IsAnswer {ℓ} : {A : Type ℓ} → Result A → Type 0
IsAnswer r = Ensures (λ a. Unit) r

pub bind-Ensures {ℓ κ} :
    {A : Type ℓ} {B : Type κ} (P : B → Type 0) (r : Result A) (f : A → Result B)
    → IsAnswer r
    → ((a : A) → Ensures P (f a))
    → Ensures P (r >>= f)
bind-Ensures P (ok a) f h k = k a
bind-Ensures P (err e) f h k = tt
bind-Ensures P fault f h k = h

put-IsAnswer : (g : String → Bool) (k : String) (e : Entry) (es : Entries) → IsAnswer (put g k e es)
put-IsAnswer g k e es = elim (Bool-cases (g k)) [ inl y ↦ rw y tt | inr n ↦ rw n tt ]

-- An element whose text is looked up first.
put-named-IsAnswer :
    (g : String → Bool) (k t : String) (o : Option Bytes) (es : Entries)
    → IsAnswer (named t o >>= λ s. put g k (chars s) es)
put-named-IsAnswer g k t none es = tt
put-named-IsAnswer g k t (some s) es = put-IsAnswer g k (chars s) es

put-not_null-IsAnswer :
    (g : String → Bool) (k : String) (o : Option Bytes) (u : Bytes)
    → o ≡ some u
    → (es : Entries) → IsAnswer (not_null o >>= λ s. put g k (chars s) es)
put-not_null-IsAnswer g k none u h es = absurd (ground (arith, h))
put-not_null-IsAnswer g k (some s) u h es = put-IsAnswer g k (chars s) es

run-IsAnswer :
    (steps : List (Entries → Result Entries)) (es : Entries)
    → All (λ step. (es : Entries) → IsAnswer (step es)) steps
    → IsAnswer (run steps es)
unfolding run
run-IsAnswer [] es h = tt
run-IsAnswer (step ∷ steps) es (h, hs) =
    bind-Ensures (λ a. Unit) (step es) (run steps) (h es) (λ a. run-IsAnswer steps a hs)

-- What is left of the data is `left`.
abbrev Leaves : Source → Entries × Source → Type 0
Leaves left (es, from) = from ≡ left

if_granted-Leaves :
    (left : Source) (b : Bool) (r : Result (Entries × Source))
    → Ensures (Leaves left) r
    → Ensures (Leaves left) (if_granted b r)
if_granted-Leaves left true r h = h
if_granted-Leaves left false r h = tt

module _ {H : Type 0} (melon : Melon H) where
  -- Melon ends a message whose header is followed by `left` only when the body handler says so.
  abbrev pub EndsWhenDone : Type 0
  EndsWhenDone =
      (s : Bytes) (m : Message H) (left : Bytes)
      → melon.parse (parse_body_handler melon) s ≡ complete m left
      → (parse_body_handler melon m (left ∷ []) ≡ done)

  verdict-cut :
      (v : Option Bytes) (left : Bytes)
      → verdict_of melon v (left ∷ []) ≡ done
      → (body rest : Bytes) × (body_of melon v (buffer left) ≡ ok (body, buffer rest))
        × (body ++ rest ≡ left)
  unfolding reaches
  verdict-cut none left h = ([], left, refl, refl)
  verdict-cut (some v) left h = elim (Bool-cases (melon.atol v == 0)) [
    | inl z ↦ ([], left, ground (arith, z), refl)
    | inr nz ↦ (
      take (melon.atol v) left,
      drop (melon.atol v) left,
      ground (arith, h, nz),
      take-drop (melon.atol v) left,
    )
  ]

  body-cut :
      (s : Bytes) (m : Message H) (left : Bytes)
      → EndsWhenDone
      → melon.parse (parse_body_handler melon) s ≡ complete m left
      → (body rest : Bytes) × (body_of melon
            (melon.field_get m.headers content_length_name)
            (buffer left)
          ≡ ok (body, buffer rest))
        × (body ++ rest ≡ left)
  unfolding parse_body_handler
  body-cut s m left ends e =
      verdict-cut (melon.field_get m.headers content_length_name) left (ends s m left e)

  -- The uri of a request that Melon has parsed is there.
  abbrev pub HasUri : Kind → Message H → Type 0
  HasUri request m = (u : Bytes) × (m.uri ≡ some u)
  HasUri k m = Unit

  result_build_body-Leaves :
      (g : String → Bool) (m : Message H) (from : Source) (es : Entries) (body : Bytes)
      (left : Source)
      → body_of melon (melon.field_get m.headers content_length_name) from ≡ ok (body, left)
      → Ensures (Leaves left) (result_build_body melon g m from es)
  unfolding result_build_body
  result_build_body-Leaves g m from es body left fits = rw fits (
      bind-Ensures (Leaves left) (put g "body" (chars body) es) (λ a. ok (a, left))
        (put-IsAnswer g "body" (chars body) es) (λ a. refl))

  build_of-Leaves :
      (k : Kind) (g : BuildGrants) (m : Message H) (from : Source) (body : Bytes) (left : Source)
      → HasUri k m
      → body_of melon (melon.field_get m.headers content_length_name) from ≡ ok (body, left)
      → Ensures (Leaves left) (build_of melon k g m from)
  unfolding request_result_build response_result_build
  build_of-Leaves request g m from body left (u, uri) fits =
      let es_of = put-IsAnswer g.elem in
      if_granted-Leaves left g.array (request_result_build melon g.elem m from) (
        bind-Ensures (Leaves left) (run _ []) (result_build_body melon g.elem m from)
          (run-IsAnswer _ [] (
            es_of "type" (chars request_name),
            (
              put-named-IsAnswer g.elem "method" "Invalid HTTP request method."
                  (nth methods m.method),
              (
                put-named-IsAnswer g.elem "version" "Invalid HTTP request version."
                    (nth versions m.version),
                (
                  put-not_null-IsAnswer g.elem "uri" m.uri u uri,
                  (
                    es_of "args" (chars (or_empty m.args)),
                    (es_of "headers" (elements (map pair (melon.fields m.headers))), tt),
                  ),
                ),
              ),
            ),
          ))
          (λ es. result_build_body-Leaves g.elem m from es body left fits))
  build_of-Leaves response g m from body left h fits =
      let es_of = put-IsAnswer g.elem in
      if_granted-Leaves left g.array (response_result_build melon g.elem m from) (
        bind-Ensures (Leaves left) (run _ []) (result_build_body melon g.elem m from)
          (run-IsAnswer _ [] (
            es_of "type" (chars response_name),
            (
              put-named-IsAnswer g.elem "version" "Invalid HTTP response version."
                  (nth versions m.version),
              (
                es_of "code" (number m.status),
                (es_of "headers" (elements (map pair (melon.fields m.headers))), tt),
              ),
            ),
          ))
          (λ es. result_build_body-Leaves g.elem m from es body left fits))
  build_of-Leaves unknown g m from body left h fits = tt

  -- What had been read where the bytes behind the message were written.
  abbrev pub Wrote : Bytes → Option Bytes → Type 0
  Wrote s none = Unit
  Wrote s (some r) =
      (m : Message H) × (left body : Bytes) × (melon.parse (parse_body_handler melon) s
        ≡ complete m left)
      × (body_of melon (melon.field_get m.headers content_length_name) (buffer left)
          ≡ ok (body, buffer r))
      × (body ++ r ≡ left)

  abbrev Right : Bytes → Outcome → Type 0
  Right s o = IsAnswer o.answer × Wrote s o.written

  if-Right :
      (s : Bytes) (b : Bool) (a : Answer) → Right s (unwritten (if b then ok a else err no_memory))
  if-Right s true a = (tt, tt)
  if-Right s false a = (tt, tt)

  if_parser-Right :
      (s : Bytes) (b : Bool) (o : Outcome)
      → Right s o
      → Right s (if b then o else unwritten (err no_memory))
  if_parser-Right s true o h = h
  if_parser-Right s false o h = (tt, tt)

  rest_written-Right :
      (s : Bytes) (val : Bool) (es : Entries) (r : Bytes)
      → Wrote s (some r)
      → Right s (rest_written val es (buffer r))
  rest_written-Right s true es [] w = (tt, tt)
  rest_written-Right s false es [] w = (tt, tt)
  rest_written-Right s true es (b ∷ bs) w = (tt, w)
  rest_written-Right s false es (b ∷ bs) w = (tt, tt)

  built-Right :
      (s : Bytes) (val : Bool) (res : Result (Entries × Source)) (r : Bytes)
      → Wrote s (some r)
      → Ensures (Leaves (buffer r)) res
      → Right s (built val res)
  built-Right s val (ok (es, from)) r w leaves =
      subst (λ f. Right s (rest_written val es f)) (sym leaves) (rest_written-Right s val es r w)
  built-Right s val (err e) r w leaves = (tt, tt)
  built-Right s val fault r w leaves = absurd leaves

  answered-Right :
      (s : Bytes) (g : ParseGrants) (p : Parsed H)
      → melon.parse (parse_body_handler melon) s ≡ p
      → EndsWhenDone
      → ((m : Message H) (left : Bytes) → p ≡ complete m left → HasUri m.kind m)
      → Right s (answered melon g p)
  unfolding result_build
  answered-Right s g (complete m left) e ends uri =
      let (body, r, fits, whole) = body-cut s m left ends e in
      built-Right s g.rest (result_build melon g.build m (buffer left)) r
        (m, left, body, e, fits, whole)
        (build_of-Leaves m.kind g.build m (buffer left) body (buffer r) (uri m left refl) fits)
  answered-Right s g incomplete e ends uri = if-Right s g.value not_all
  answered-Right s g broken e ends uri = if-Right s g.value no_message_parsed

  -- For every string, whatever is refused, where Melon ends a message only when the body handler says so
  -- and gives a request its uri: parse returns, it reads nothing behind the data; and when it writes to
  -- the string, it leaves there just the bytes behind the body, where header, body and they are all.
  pub parse_process-Right :
      (g : ParseGrants) (s : Bytes)
      → EndsWhenDone
      → ((m : Message H) (left : Bytes)
          → melon.parse (parse_body_handler melon) s ≡ complete m left
          → HasUri m.kind m)
      → IsAnswer (parse_process melon g (given (string s))).answer
        × Wrote s (parse_process melon g (given (string s))).written
  unfolding parse_process
  parse_process-Right g [] ends uri = if-Right [] g.value not_all
  parse_process-Right g (b ∷ bs) ends uri =
      if_parser-Right (b ∷ bs) g.parser
        (answered melon g (melon.parse (parse_body_handler melon) (b ∷ bs)))
        (answered-Right (b ∷ bs) g (melon.parse (parse_body_handler melon) (b ∷ bs)) refl ends uri)
