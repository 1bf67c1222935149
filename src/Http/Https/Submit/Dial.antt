-- ===== src/Http/Https/Submit/Dial.antt =====
-- https_request: from the settings to the connection that is under way.
use melang.Base.{ℕ, true, false, Option, none, some, if◌then◌else◌}
use melang.Script.{Bytes, array, Symbol, var, other, Env, no_memory, message}
use melang.Http.Https.{Request, Outside, to_connect, state_free, has_timeout, ◌>>=◌}
use melang.Http.Https.Submit.{
  Checked, valid, refused, Site, Ended, rejected, gave_false, submitted, Settings, start,
  nothing_made, settings, names, c_string,
}

-- The request is freed, and the call ends.
abbrev pub freed : (Outside → Ended) → Request → Outside → Option Ended
freed end r o = state_free r o >>= λ p. some (end p)

abbrev pub linked : Request → Request
linked r = record r { linked = true }

-- The request with its conf, an own one or the number of one, which is what there is of it.
abbrev pub conf_request : Settings → Option ℕ → Request
conf_request s none = record (start s) { own_conf = true; conf = true }
conf_request s (some id) = record (start s) { conf_id = id }

abbrev pub conf_made : Option ℕ → Outside
conf_made none = record nothing_made { confs = 1 }
conf_made (some id) = nothing_made

module _ (site : Site) where
  -- The connection is under way: the timeout is set, the request put into the chain of the coroutine,
  -- which is suspended. Without the chain, the value that the call had made is left behind.
  abbrev pub under_way : Request → Outside → Option Ended
  under_way r o =
      if site.resource
      then some (
          submitted (linked r)
            (record o { timer = has_timeout r.timeout; in_chain = true; suspended = true }))
      else freed (rejected (message "https ctx resource missing.") false) r
          (record o { timer = has_timeout r.timeout })

  -- The same is so where the event is refused.
  abbrev pub with_socket : Request → Outside → Option Ended
  with_socket r o =
      if site.event
      then (if site.connect
          then under_way r (record o { armed = some to_connect })
          else freed gave_false r (record o { armed = some to_connect }))
      else freed (rejected no_memory false) r o

  abbrev pub dial : Settings → Request → Outside → Option Ended
  dial s r o =
      if site.addrinfo (c_string s.host) (c_string s.service)
      then (if site.socket
          then with_socket (record r { fd = true }) (record o { sockets = 1 })
          else freed gave_false r o)
      else freed gave_false r o

  abbrev pub named : Settings → Checked (Bytes × Bytes) → Request → Outside → Option Ended
  named s (valid (sni, vhost)) r o = dial s (record r { sni = sni; vhost = vhost }) o
  named s (refused e) r o = freed (rejected e true) r o

  abbrev pub configured : ℕ → Checked Settings → Option Ended
  configured a (valid s) = named s (names site a s) (conf_request s s.conf) (conf_made s.conf)
  configured a (refused e) = some (rejected e true nothing_made)

  -- mln_lang_https_request_process. The value false and the request are made before the arguments are
  -- read.
  abbrev pub with_args : Option Symbol → Option Ended
  with_args (some (var (array a))) =
      if site.value
      then (if site.state
          then configured a (settings site a)
          else some (rejected no_memory true nothing_made))
      else some (rejected no_memory true nothing_made)
  with_args (some other) = none
  with_args v = some (rejected (message "Argument 'args' must be an array.") true nothing_made)

  unfoldable pub request_process : Env → Option Ended
  request_process env = with_args (env "args")
