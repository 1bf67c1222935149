-- ===== src/Http/Https/Send.antt =====
-- https_request: the request is made and sent.
use melang.Base.{Bool, true, false, ◌&&◌, not, none, some, suc, if◌then◌else◌}
use melang.Script.{Bytes, Result, ok, err, fault}
use melang.Http.{Melon}
use melang.Http.Create.{generate}
use melang.Http.Https.{
  receiving, Request, Outside, to_exchange, Io, Conn, closed, broken_off, Progress, failed, waiting,
  crash, release, registered,
}

-- The directions that TLS waits for, and `fallback` where it waits for none.
abbrev pub direction : Bool → Bool → Bool → Bool
direction recv other_wanted fallback =
    if recv then true else (if other_wanted then false else fallback)

module _ {H : Type 0} (melon : Melon H) (io : Io H) where
  -- mln_lang_https_arm, with M_EV_RECV for a fallback or M_EV_SEND.
  abbrev pub arm : Bool → Request → Outside → Progress
  arm recv r o =
      registered io.event
        (to_exchange (direction io.want_read io.want_write recv)
          (direction io.want_write io.want_read (not recv)))
        r o

  -- The parser is destroyed again where the request cannot be made.
  abbrev pub dropped : Request → Outside → Progress
  dropped r o = elim (release true o.parsers) [
    | none ↦ crash
    | some n ↦ failed (record r { http = false }) (record o { parsers = n })
  ]

  abbrev pub serialized : Result Bytes → Request → Outside → Progress
  serialized (ok s) r o =
      if io.chain then waiting (record r { request_built = true }) o else dropped r o
  serialized (err e) r o = dropped r o
  serialized fault r o = crash

  -- mln_lang_https_build_request; `waiting` is its 0.
  abbrev pub build_request : Request → Outside → Progress
  build_request r o =
      if r.request_built
      then waiting r o
      else (if io.http_init
          then serialized (generate melon io.create io.request melon.new) (record r { http = true })
              (record o { parsers = suc o.parsers })
          else failed (record r { http = false }) o)

  abbrev pub all_sent : Bool
  all_sent = io.send_queue_empty && (not io.want_read && not io.want_write)

  abbrev pub after_send : Conn → Request → Outside → Progress
  after_send broken_off r o = failed r o
  after_send closed r o = failed r o
  after_send c r o = if all_sent then arm true (record r { phase = receiving }) o else arm false r o

  -- mln_lang_https_advance_send
  unfoldable pub advance_send : Request → Outside → Progress
  advance_send r o = after_send io.sent r o
