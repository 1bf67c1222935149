-- ===== src/Http/Https/Body.antt =====
-- https_request: a response with a body, for which the array of the request is taken for a buffer.
use melang.Base.{
  arith, ℕ, ◌+◌, ◌<◌, ◌≡◌, refl, sym, ap, subst, ◌∙◌, Bool, true, false, [], ◌∷◌, Option, none,
  some, ◌==◌, map, if◌then◌else◌, ◌&&◌,
}
use melang.Script.{Bytes, ok}
use melang.Http.{
  response, Message, Melon, complete, Source, chars, number, elements, found, content_length_name,
  response_name, negative,
}
use melang.Http.Parse.{
  Entries, behind, pair, body_of, run, build_of, result_build_body, result_left, left_of,
  response_result_build, result_build,
}
use melang.Http.RoundTrip.{build_all, version-index}
use melang.Http.Https.{
  receiving, not_yet, Request, Outside, Returned, Io, World, in_flight, over, unlink, release,
  cleared, state_free, continued, resume_with, ◌>>=◌,
}
use melang.Http.Https.Receive.{
  ended, moved_by, parsed, after_parse, after_recv, advance_recv, drive_in, drive, responded,
}
use melang.Http.Https.Handlers.{settle, taken, https_handler}
use melang.Http.Https.Steps.{moved_by-Held}
use melang.Http.Https.Settled.{Held, resume_with-Resumed}

-- What holds of the result, if there is one.
abbrev AllSome : {A : Type 0} → (A → Type 0) → Option A → Type 0
AllSome P none = Unit
AllSome P (some a) = P a

bind-AllSome :
    {A B : Type 0} (Q : A → Type 0) (P : B → Type 0) (x : Option A) (f : A → Option B)
    → AllSome Q x
    → ((a : A) → Q a → AllSome P (f a))
    → AllSome P (x >>= f)
bind-AllSome Q P none f h each = tt
bind-AllSome Q P (some a) f h each = each a h

any_some : {A : Type 0} (x : Option A) → AllSome (λ a. ℕ) x
any_some none = tt
any_some (some a) = 0

-- What the coroutine gets, and by how much the array's pointer has been moved.
abbrev Gets : Option Returned → ℕ → Outside → Type 0
Gets v n o = (o.ret ≡ v) × (o.array_moved ≡ n)

abbrev GetsAtEnd : Option Returned → ℕ → World → Type 0
GetsAtEnd v n (over o) = Gets v n o
GetsAtEnd v n (in_flight r o) = Gets v n o

cleared-Gets :
    (b : Bool) (v : Option Returned) (n : ℕ) (o : Outside) → Gets v n o → Gets v n (cleared b o)
cleared-Gets true v n o h = h
cleared-Gets false v n o h = h

state_free-Gets :
    (r : Request) (v : Option Returned) (n : ℕ) (o : Outside)
    → Gets v n o
    → AllSome (Gets v n) (state_free r o)
unfolding state_free
state_free-Gets r v n o h =
    bind-AllSome (λ a. ℕ) (Gets v n) (unlink (r.linked && r.ctx) o.in_chain) _ (any_some _)
      (λ a h1.
        bind-AllSome (λ a. ℕ) (Gets v n) (release r.fd o.sockets) _ (any_some _)
          (λ b h2.
            bind-AllSome (λ a. ℕ) (Gets v n) (release r.http o.parsers) _ (any_some _)
              (λ c h3.
                bind-AllSome (λ a. ℕ) (Gets v n) (release r.have_conn o.conns) _ (any_some _)
                  (λ d h4.
                    bind-AllSome (λ a. ℕ) (Gets v n) (release (r.own_conf && r.conf) o.confs) _
                      (any_some _) (λ e h5. cleared-Gets r.fd v n o h)))))

if-AllSome :
    {A : Type 0} (P : A → Type 0) (b : Bool) (a : A) → P a → AllSome P (if b then some a else none)
if-AllSome P true a h = h
if-AllSome P false a h = tt

continued-Gets :
    (v : Returned) (o : Outside) → AllSome (Gets (some v) o.array_moved) (continued (some v) o)
continued-Gets v o =
    if-AllSome (Gets (some v) o.array_moved) o.suspended
      (record o { suspended = false; ret = some v }) (refl, refl)

resume_with-Gets :
    (v : Returned) (r : Request) (o : Outside)
    → r.ctx ≡ true
    → AllSome (GetsAtEnd (some v) o.array_moved) (resume_with (some v) r o)
unfolding resume_with
resume_with-Gets v r o ctx =
    let gets = Gets (some v) o.array_moved in
    let going =
      subst (λ b. AllSome gets (if b then continued (some v) o else some o)) (sym ctx)
        (continued-Gets v o) in
    bind-AllSome gets (GetsAtEnd (some v) o.array_moved)
      (if r.ctx then continued (some v) o else some o) _ going
      (λ a h.
        bind-AllSome gets (GetsAtEnd (some v) o.array_moved) (state_free r a) _
          (state_free-Gets r (some v) o.array_moved a h) (λ b k. k))

module _ {H : Type 0} (melon : Melon H) where
  -- The response has a positive length in its header, of which `n` is the number.
  abbrev pub HasBody : Message H → ℕ → Type 0
  HasBody m n =
      (m.kind ≡ response)
      × (m.version < 2)
      × (v : Bytes) × (melon.field_get m.headers content_length_name ≡ some v)
      × (melon.atol v ≡ n)
      × ((n == 0) ≡ false)
      × (negative n ≡ false)

  moved_behind : ℕ → (ℕ → Option Bytes) → Source
  moved_behind n memory = Source.dictionary (0 + n) (λ k. behind n (memory (n + k)))

  body_of-moves :
      (m : Message H) (n : ℕ) (bs : Bytes) (memory : ℕ → Option Bytes)
      → HasBody m n
      → memory n ≡ some bs
      → body_of melon (melon.field_get m.headers content_length_name) (Source.dictionary 0 memory)
        ≡ ok (bs, moved_behind n memory)
  unfolding moved_behind
  body_of-moves m n bs memory (kind, known, v, there, length_is, positive, some_body) read =
      rw (there, length_is, some_body, positive, read) refl

  built-moves :
      (m : Message H) (n : ℕ) (bs : Bytes) (memory : ℕ → Option Bytes)
      → HasBody m n
      → memory n ≡ some bs
      → (es : Entries) × (result_build melon build_all m (Source.dictionary 0 memory)
          ≡ ok (es, moved_behind n memory))
        × (found es "body" ≡ chars bs)
  unfolding run result_build response_result_build result_build_body found
  built-moves m n bs memory has read =
      let (kind, known, v, there, length_is, positive, some_body) = has in
      let (t, names, index) = version-index m.version known in
      let es : Entries =
        ("type", chars response_name)
        ∷ ("version", chars t)
        ∷ ("code", number m.status)
        ∷ ("headers", elements (map (λ p. pair p) (melon.fields m.headers)))
        ∷ ("body", chars bs)
        ∷ [] in
      (
        es,
        ap (λ k. build_of melon k build_all m (Source.dictionary 0 memory)) kind
            ∙ rw (names, body_of-moves m n bs memory has read) refl,
        refl,
      )

  left-moves :
      (m : Message H) (n : ℕ) (bs : Bytes) (memory : ℕ → Option Bytes)
      → HasBody m n
      → memory n ≡ some bs
      → result_left melon build_all m (Source.dictionary 0 memory) ≡ moved_behind n memory
  unfolding run result_left
  left-moves m n bs memory has read =
      let (kind, known, _, _, _, _, _) = has in
      let (t, names, index) = version-index m.version known in
      let from = Source.dictionary 0 memory in
      ap (λ k. left_of melon k build_all.elem m from) kind
      ∙ rw (names, body_of-moves m n bs memory has read) refl

  -- Where a request waits for its response, some of it is received and Melon's parser, with create's
  -- body handler, gives a whole response with a known version and a positive length n in its header,
  -- and all memory is granted: if n bytes can be read behind the first pointer of the array that the
  -- script gave, the handler of the exchange ends the request and the coroutine gets an array whose
  -- body is those bytes of the array's memory, not bytes that were received, and that pointer of the
  -- script's array has been moved n bytes further.
  pub https_handler-moves :
      (io : Io H) (r : Request) (o : Outside) (m : Message H) (left bs : Bytes) (n : ℕ)
      → Held r (taken o)
      → r.phase ≡ receiving
      → io.received ≡ not_yet
      → parsed melon io io.arrived ≡ some (ok (complete m left))
      → io.build ≡ build_all
      → HasBody m n
      → io.memory n ≡ some bs
      → (es : Entries) × (o' : Outside) × (https_handler melon io r o ≡ some (over o'))
        × (o'.ret ≡ some (Returned.dictionary es))
        × (found es "body" ≡ chars bs)
        × (o'.array_moved ≡ n)
  unfolding https_handler drive advance_recv moved_behind
  https_handler-moves io r o m left bs n held phase got all granted has read =
      let (es, built, at) = built-moves m n bs io.memory has read in
      let from = Source.dictionary 0 io.memory in
      let behind_it = moved_behind n io.memory in
      let left_over = result_left melon io.build m from in
      let gone = moved_by melon io left_over (taken o) in
      let gone-Held = moved_by-Held melon io left_over r (taken o) held in
      let v = Returned.dictionary es in
      let (o', resumed, _) = resume_with-Resumed (some v) r gone gone-Held in
      let (_, _, ctx, _, _, _, _, _, _) = held in
      let (ret, moved) : GetsAtEnd (some v) gone.array_moved (over o') =
        subst (AllSome (GetsAtEnd (some v) gone.array_moved)) resumed
          (resume_with-Gets v r gone ctx) in
      let left_is : left_over ≡ behind_it =
        ap (λ g. result_left melon g m from) granted ∙ left-moves m n bs io.memory has read in
      let by_n : gone.array_moved ≡ 0 + n =
        ap (λ l. (moved_by melon io l (taken o)).array_moved) left_is in
      let drives : drive melon io r (taken o) ≡ responded melon io (ok (es, behind_it)) r gone =
        ap (λ p. drive_in melon io p r (taken o)) phase
        ∙ ap (λ c. after_recv melon io c r (taken o)) got
        ∙ ap (λ a. after_parse melon io a r (taken o)) all
        ∙ ap (λ g. responded melon io (result_build melon g m from) r gone) granted
        ∙ ap (λ res. responded melon io res r gone) built in
      (
        es,
        o',
        ap settle drives ∙ ap (λ w. settle (ended w)) resumed,
        ret,
        at,
        moved ∙ by_n ∙ omega arith,
      )
