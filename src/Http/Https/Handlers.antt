-- ===== src/Http/Https/Handlers.antt =====
-- https_request: the handlers that the event loop calls. An event and its timeout come once, so neither
-- is registered when a handler is called.
use melang.Base.{ℕ, suc, Bool, true, false, [], ◌∷◌, Option, none, some, leb, if◌then◌else◌}
use melang.Script.{Bytes}
use melang.Http.{Melon}
use melang.Http.Https.{
  handshaking, Request, Registration, to_connect, to_exchange, Outside, Returned, Io, SocketError,
  no_error, in_progress, another, Progress, failed, waiting, answered, crash, World, in_flight,
  over, resume_with, registered,
}
use melang.Http.Https.Receive.{drive}

-- MLN_LANG_HTTPS_RETRY_MAX
abbrev pub retry_max : ℕ
retry_max = 64

-- A handler that is not to wait resumes the coroutine, with the value false that it already has.
abbrev pub settle : Progress → Option World
settle (failed r o) = resume_with none r o
settle (waiting r o) = some (in_flight r o)
settle (answered o) = some (over o)
settle crash = none

abbrev pub taken : Outside → Outside
taken o = record o { armed = none; timer = false }

-- A name is set only where there is one.
abbrev pub set_name : (Bytes → Bool) → Bytes → Bool
set_name set [] = true
set_name set (b ∷ bs) = set (b ∷ bs)

module _ {H : Type 0} (melon : Melon H) (io : Io H) where
  -- The names are set, then the handshake begins.
  abbrev pub secured : Request → Outside → Progress
  secured r o =
      if set_name io.set_sni r.sni
      then (if set_name io.set_verify_host r.vhost
          then drive melon io (record r { phase = handshaking }) o
          else failed r o)
      else failed r o

  abbrev pub knows_conf : Request → Bool
  knows_conf r = if r.conf then true else io.has_conf r.conf_id

  -- TLS upon the connection, with the conf of the request or the one that has its number by now.
  abbrev pub upgrade : Request → Outside → Progress
  upgrade r o =
      if knows_conf r
      then (if io.tls_init
          then secured (record r { have_conn = true }) (record o { conns = suc o.conns })
          else failed (record r { have_conn = false }) o)
      else failed r o

  abbrev pub connected : SocketError → Request → Outside → Progress
  connected no_error r o = upgrade r o
  connected in_progress r o =
      if leb (suc r.retry) retry_max
      then registered io.event to_connect (record r { retry = suc r.retry }) o
      else failed (record r { retry = suc r.retry }) o
  connected another r o = failed r o

  -- mln_lang_https_connect_handler
  unfoldable pub connect_handler : Request → Outside → Option World
  connect_handler r o = settle (connected io.so_error r (taken o))

  -- mln_lang_https_handler
  unfoldable pub https_handler : Request → Outside → Option World
  https_handler r o = settle (drive melon io r (taken o))

  -- mln_lang_https_timeout_handler
  unfoldable pub timeout_handler : Request → Outside → Option World
  timeout_handler r o = resume_with (if io.nil_value then some Returned.nil else none) r (taken o)

  -- What the event loop calls for a registration.
  abbrev pub handler_of : Registration → Request → Outside → Option World
  handler_of to_connect r o = connect_handler r o
  handler_of (to_exchange recv send) r o = https_handler r o
