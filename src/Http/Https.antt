-- ===== src/Http/Https.antt =====
-- lib_src/http/mln_lang_http.c: https_request. A request in flight is a state machine that the event loop
-- drives, while the coroutine that asked for it is suspended. Sockets, TLS, the event loop and the parser
-- are outside; what their calls return during one event is an `Io`.
pub mod Send
pub mod Receive
pub mod Handlers
pub mod Settled
pub mod Steps
pub mod Reached
pub mod Runs
pub mod Submit
pub mod Body
mod Tests
use Prim.Native.String.{String}
use melang.Base.{
  ℕ, zero, suc, ◌+◌, Bool, true, false, List, ◌&&◌, not, Option, none, some, if◌then◌else◌,
}
use melang.Script.{Bytes, Result}
use melang.Http.{Message, Parsed, Melon, Dictionary}
use melang.Http.Parse.{Entries, BuildGrants}
use melang.Http.Create.{CreateGrants}

-- MLN_LANG_HTTPS_STATE_*
pub data Phase : Type 0 where
  connecting : Phase
  handshaking : Phase
  sending : Phase
  receiving : Phase

-- mln_lang_https_state_t. A Boolean is a pointer that is not NULL, or a descriptor that is not -1; a
-- timeout `none` is M_EV_UNLIMITED. A borrowed conf is known by `conf_id` only.
pub record Request : Type 0 where
  pub phase : Phase
  pub fd : Bool
  pub timeout : Option ℕ
  pub retry : ℕ
  pub have_conn : Bool
  pub own_conf : Bool
  pub linked : Bool
  pub request_built : Bool
  pub conf : Bool
  pub conf_id : ℕ
  pub http : Bool
  pub ctx : Bool
  pub sni : Bytes
  pub vhost : Bytes

-- What is registered with the event loop for the socket: the connect handler or the handler of the
-- exchange, the latter with the directions it waits for.
pub data Registration : Type 0 where
  to_connect : Registration
  to_exchange : Bool → Bool → Registration

-- What the coroutine gets: a response, nil, or the value false that it already has.
pub data Returned : Type 0 where
  dictionary : Entries → Returned
  nil : Returned

-- What there is outside of the request: how many sockets, parsers, connections and confs have been made
-- for it and are not freed, the registration of the socket and whether it has a timeout, whether the
-- request is in the chain of its coroutine, whether the coroutine is suspended, what it gets, and by how
-- much the first pointer of the array that the script gave has been moved.
pub record Outside : Type 0 where
  pub sockets : ℕ
  pub parsers : ℕ
  pub conns : ℕ
  pub confs : ℕ
  pub armed : Option Registration
  pub timer : Bool
  pub in_chain : Bool
  pub suspended : Bool
  pub ret : Option Returned
  pub array_moved : ℕ

-- M_C_FINISH, M_C_NOTYET, M_C_CLOSED and M_C_ERROR of Melon's connections.
pub data Conn : Type 0 where
  finish : Conn
  not_yet : Conn
  closed : Conn
  broken_off : Conn

-- The error that getsockopt gives.
pub data SocketError : Type 0 where
  no_error : SocketError
  in_progress : SocketError
  another : SocketError

-- What the calls return during one event: of the socket, the conf set, TLS, the allocations, the event
-- loop and the parser. `arrived` is `none` where nothing was received, and otherwise what mln_http_parse
-- makes of it with a body handler; `memory` is what can be read behind the first pointer of the array.
pub record Io (H : Type 0) : Type 0 where
  pub so_error : SocketError
  pub has_conf : ℕ → Bool
  pub tls_init : Bool
  pub set_sni : Bytes → Bool
  pub set_verify_host : Bytes → Bool
  pub handshake : Conn
  pub http_init : Bool
  pub request : Dictionary
  pub create : CreateGrants
  pub chain : Bool
  pub sent : Conn
  pub send_queue_empty : Bool
  pub want_read : Bool
  pub want_write : Bool
  pub received : Conn
  pub arrived : Option ((Message H → Result (Message H × List Bytes)) → Result (Parsed H))
  pub memory : ℕ → Option Bytes
  pub build : BuildGrants
  pub event : Bool
  pub nil_value : Bool

-- What a step of the machine returns: -1, 0 or 1. The request is freed where it returns 1. `crash` is a
-- pointer followed that is not valid.
pub data Progress : Type 0 where
  failed : Request → Outside → Progress
  waiting : Request → Outside → Progress
  answered : Outside → Progress
  crash : Progress

-- A request in flight, or freed.
pub data World : Type 0 where
  in_flight : Request → Outside → World
  over : Outside → World

infixl 5 ◌>>=◌
abbrev pub ◌>>=◌ : {A B : Type 0} → Option A → (A → Option B) → Option B
none >>= f = none
some a >>= f = f a

-- One object freed where the request has it; to free what is not there is a crash.
abbrev pub release : Bool → ℕ → Option ℕ
release false n = some n
release true zero = none
release true (suc n) = some n

-- mln_lang_https_chain_del, on a request that is in the chain or not.
abbrev pub unlink : Bool → Bool → Option Bool
unlink false b = some b
unlink true false = none
unlink true true = some false

-- The event of the socket is cleared before it is closed.
abbrev pub cleared : Bool → Outside → Outside
cleared false o = o
cleared true o = record o { armed = none; timer = false }

-- mln_lang_https_state_free
unfoldable pub state_free : Request → Outside → Option Outside
state_free r o = do
  in_chain ← unlink (r.linked && r.ctx) o.in_chain
  sockets ← release r.fd o.sockets
  parsers ← release r.http o.parsers
  conns ← release r.have_conn o.conns
  confs ← release (r.own_conf && r.conf) o.confs
  some (record (cleared r.fd o) {
    in_chain = in_chain;
    sockets = sockets;
    parsers = parsers;
    conns = conns;
    confs = confs;
  })

-- mln_lang_ctx_set_ret_var and mln_lang_ctx_continue; a coroutine that runs cannot be continued.
abbrev pub continued : Option Returned → Outside → Option Outside
continued none o = if o.suspended then some (record o { suspended = false }) else none
continued (some v) o =
    if o.suspended then some (record o { suspended = false; ret = some v }) else none

-- mln_lang_https_resume_with
unfoldable pub resume_with : Option Returned → Request → Outside → Option World
resume_with v r o = do
  o' ← (if r.ctx then continued v o else some o)
  o'' ← state_free r o'
  some (over o'')

-- The end of the coroutine: mln_lang_ctx_https_free.
unfoldable pub ctx_https_free : World → Option World
ctx_https_free (over o) = some (over o)
ctx_https_free (in_flight r o) = do
  in_chain ← unlink true o.in_chain
  o' ← state_free (record r { linked = false; ctx = false }) (record o { in_chain = in_chain })
  some (over o')

abbrev pub has_timeout : Option ℕ → Bool
has_timeout none = false
has_timeout (some t) = true

-- mln_event_fd_set with the handler of the timeout, unless it is refused.
abbrev pub registered : Bool → Registration → Request → Outside → Progress
registered false h r o = failed r o
registered true h r o = waiting r (record o { armed = some h; timer = has_timeout r.timeout })
