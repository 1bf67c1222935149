-- ===== src/Http/Https/Tests.antt =====
-- https_request: one request submitted and retried, and one whose response has a body of two bytes.
use Prim.Native.String.{String}
use text.Mathlib.Text.{◌==◌ as str_eq}
use melang.Base.{
  ℕ, ◌-◌, ◌≡◌, refl, true, false, List, [], ◌∷◌, Option, none, some, arith, if◌then◌else◌,
}
use melang.Script.{Bytes, string, array, given, ok, err, no_memory}
use melang.Http.{response, Message, complete, incomplete, Melon, nothing, found, chars}
use melang.Http.Parse.{Entries}
use melang.Http.Create.{generate, typed_message}
use melang.Http.RoundTrip.{build_all, create_all}
use melang.Http.Https.{
  connecting, receiving, not_yet, in_progress, Request, Outside, to_connect, to_exchange, Io, World,
  in_flight, over, Returned, ctx_https_free,
}
use melang.Http.Https.Handlers.{connect_handler, https_handler}
use melang.Http.Https.Settled.{IsSettled, Released}
use melang.Http.Https.Steps.{IsTame}
use melang.Http.Https.Runs.{start, step, event, handler_of-Waiting}
use melang.Http.Https.Body.{https_handler-moves}
use melang.Http.Https.Submit.{Site, Got, absent, got, Ended, submitted, settings, names, c_string}
use melang.Http.Https.Submit.Dial.{request_process}
use melang.Http.Https.Submit.Ends.{IsEnded, request_process-IsEnded, request_process-Reach}

abbrev fresh : Message (List Bytes)
fresh = record {
  kind = response;
  method = 0;
  version = 1;
  status = 200;
  uri = none;
  args = none;
  headers = [];
}

-- The only header field that this Melon keeps is Content-Length.
abbrev first : List Bytes → Option Bytes
first [] = none
first (v ∷ vs) = some v

abbrev digit : Bytes → ℕ
digit [] = 0
digit (d ∷ ds) = d - 48

abbrev toy : Melon (List Bytes)
toy = record {
  new = fresh;
  field_get = λ h k. first h;
  field_set = λ h k v. some (v ∷ h);
  fields = λ h. [];
  status_of = λ i. i;
  parse = λ handler s. incomplete;
  generate = λ handler m. err no_memory;
  atol = digit;
  print_length = λ n. [];
}

abbrev quiet : Io (List Bytes)
quiet = record {
  so_error = in_progress;
  has_conf = λ i. false;
  tls_init = true;
  set_sni = λ s. true;
  set_verify_host = λ s. true;
  handshake = not_yet;
  http_init = true;
  request = λ k. nothing;
  create = create_all;
  chain = true;
  sent = not_yet;
  send_queue_empty = true;
  want_read = false;
  want_write = false;
  received = not_yet;
  arrived = none;
  memory = λ n. none;
  build = build_all;
  event = true;
  nil_value = true;
}

abbrev look : ℕ → String → Got
look a k =
    if str_eq k "host"
    then got (string (b'a' ∷ []))
    else (if str_eq k "service"
        then got (string (b'1' ∷ []))
        else (if str_eq k "request" then got (array 2) else absent))

abbrev site : Site
site = record {
  look = look;
  has_conf = λ i. false;
  is_ip = λ s. false;
  int_timeout = λ i. some i;
  value = true;
  state = true;
  conf_new = λ ca verify. true;
  dup = λ s. true;
  addrinfo = λ h s. true;
  socket = true;
  event = true;
  connect = true;
  resource = true;
}

request_process-IsEnded_example :
    (e : Ended) × (request_process site (given (array 1)) ≡ some e) × IsEnded e
request_process-IsEnded_example = request_process-IsEnded site (given (array 1)) tt

-- The request in flight after that call, and after one retry.
abbrev connecting_request : ℕ → Request
connecting_request retry = record {
  phase = connecting;
  fd = true;
  timeout = none;
  retry = retry;
  have_conn = false;
  own_conf = true;
  linked = true;
  request_built = false;
  conf = true;
  conf_id = 0;
  http = false;
  ctx = true;
  sni = b'a' ∷ [];
  vhost = [];
}

abbrev connecting_outside : Outside
connecting_outside = record {
  sockets = 1;
  parsers = 0;
  conns = 0;
  confs = 1;
  armed = some to_connect;
  timer = false;
  in_chain = true;
  suspended = true;
  ret = none;
  array_moved = 0;
}

submitted_one :
    request_process site (given (array 1))
    ≡ some (submitted (connecting_request 0) connecting_outside)
unfolding request_process settings names c_string
submitted_one = refl

quiet-IsTame : IsTame toy quiet
unfolding generate typed_message
quiet-IsTame = (tt, λ p e. absurd (ground (arith, e)))

retried :
    connect_handler toy quiet (connecting_request 0) connecting_outside
    ≡ some (in_flight (connecting_request 1) connecting_outside)
unfolding connect_handler
retried = refl

handler_of-Waiting_example :
    (w : World) × (connect_handler toy quiet (connecting_request 0) connecting_outside ≡ some w)
    × IsSettled w
handler_of-Waiting_example =
    handler_of-Waiting toy quiet to_connect (connecting_request 0) connecting_outside quiet-IsTame
      ((refl, refl, refl, refl, refl, refl, refl, refl, refl), (refl, refl, refl), tt, refl) refl

request_process-Reach_example :
    IsSettled (in_flight (connecting_request 1) connecting_outside)
    × (o : Outside) × (ctx_https_free (in_flight (connecting_request 1) connecting_outside)
        ≡ some (over o))
    × Released o
request_process-Reach_example =
    request_process-Reach site toy (given (array 1)) (connecting_request 0) connecting_outside tt
      submitted_one (step start (event quiet to_connect quiet-IsTame refl retried))

abbrev with_body : Message (List Bytes)
with_body = record fresh { headers = (b'2' ∷ []) ∷ [] }

-- The two bytes of the body have arrived, and behind the array's pointer there are others.
abbrev arriving : Io (List Bytes)
arriving = record quiet {
  arrived = some (λ handler. ok (complete with_body (1 ∷ 2 ∷ [])));
  memory = λ k. some (7 ∷ 8 ∷ []);
}

abbrev receiving_request : Request
receiving_request = record (connecting_request 0) {
  phase = receiving;
  have_conn = true;
  http = true;
  request_built = true;
}

abbrev exchanging_outside : Outside
exchanging_outside = record connecting_outside {
  parsers = 1;
  conns = 1;
  armed = some (to_exchange true false);
}

https_handler-moves_example :
    (es : Entries) × (o : Outside) × (https_handler toy arriving receiving_request
        exchanging_outside
      ≡ some (over o))
    × (o.ret ≡ some (Returned.dictionary es))
    × (found es "body" ≡ chars (7 ∷ 8 ∷ []))
    × (o.array_moved ≡ 2)
https_handler-moves_example =
    https_handler-moves toy arriving receiving_request exchanging_outside with_body (1 ∷ 2 ∷ [])
      (7 ∷ 8 ∷ []) 2 (refl, refl, refl, refl, refl, refl, refl, refl, refl) refl refl refl refl
      (refl, omega arith, b'2' ∷ [], refl, refl, refl, refl) refl
