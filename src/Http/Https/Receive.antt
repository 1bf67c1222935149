-- ===== src/Http/Https/Receive.antt =====
-- https_request: the response is read and parsed. The parser is the one that the request was made with,
-- so what it keeps for the body is the script's array.
use melang.Base.{List, true, Option, none, some}
use melang.Script.{Bytes, Result, ok, err, fault}
use melang.Http.{Melon, Message, Parsed, complete, incomplete, broken, Source, buffer}
use melang.Http.Parse.{Entries, result_build, result_left}
use melang.Http.Create.{create_body_handler}
use melang.Http.Https.{
  Phase, connecting, handshaking, sending, receiving, Request, Outside, Returned, Io, Conn, finish,
  not_yet, closed, broken_off, Progress, failed, waiting, answered, crash, World, in_flight, over,
  resume_with,
}
use melang.Http.Https.Send.{arm, build_request, advance_send}

abbrev pub ended : Option World → Progress
ended (some (over o)) = answered o
ended (some (in_flight r o)) = waiting r o
ended none = crash

module _ {H : Type 0} (melon : Melon H) (io : Io H) where
  -- A body that was cut from the array has moved its first pointer.
  abbrev pub moved_by : Source → Outside → Outside
  moved_by (buffer bs) o = o
  moved_by (Source.dictionary moved memory) o = record o { array_moved = moved }

  abbrev pub responded : Result (Entries × Source) → Request → Outside → Progress
  responded (ok (es, from)) r o = ended (resume_with (some (Returned.dictionary es)) r o)
  responded (err e) r o = failed r o
  responded fault r o = crash

  -- Where the response is not all there, the coroutine goes on waiting, unless the peer has closed.
  abbrev pub wait_more : Conn → Request → Outside → Progress
  wait_more closed r o = failed r o
  wait_more c r o = arm melon io true r o

  -- A parse whose body handler fails is M_HTTP_RET_ERROR.
  abbrev pub after_parse : Option (Result (Parsed H)) → Request → Outside → Progress
  after_parse none r o = wait_more io.received r o
  after_parse (some (ok incomplete)) r o = wait_more io.received r o
  after_parse (some (ok broken)) r o = failed r o
  after_parse (some (err e)) r o = failed r o
  after_parse (some fault) r o = crash
  after_parse (some (ok (complete m left))) r o =
      let from = Source.dictionary 0 io.memory in
      responded (result_build melon io.build m from) r
        (moved_by (result_left melon io.build m from) o)

  -- The body handler is the one of create, with the array of the request.
  abbrev pub parsed :
      Option ((Message H → Result (Message H × List Bytes)) → Result (Parsed H))
      → Option (Result (Parsed H))
  parsed none = none
  parsed (some parse) = some (parse (create_body_handler melon io.create io.request))

  abbrev pub after_recv : Conn → Request → Outside → Progress
  after_recv broken_off r o = failed r o
  after_recv c r o = after_parse (parsed io.arrived) r o

  -- mln_lang_https_advance_recv
  unfoldable pub advance_recv : Request → Outside → Progress
  advance_recv r o = after_recv io.received r o

  abbrev pub then_send : Progress → Progress
  then_send (waiting r o) = advance_send melon io (record r { phase = sending }) o
  then_send p = p

  abbrev pub after_handshake : Conn → Request → Outside → Progress
  after_handshake broken_off r o = failed r o
  after_handshake closed r o = failed r o
  after_handshake finish r o = then_send (build_request melon io r o)
  after_handshake not_yet r o = arm melon io true r o

  abbrev pub drive_in : Phase → Request → Outside → Progress
  drive_in handshaking r o = after_handshake io.handshake r o
  drive_in sending r o = advance_send melon io r o
  drive_in receiving r o = advance_recv r o
  drive_in connecting r o = failed r o

  -- mln_lang_https_drive
  unfoldable pub drive : Request → Outside → Progress
  drive r o = drive_in r.phase r o
