-- ===== src/Http/Https/Reached.antt =====
-- https_request: after a handler a request is armed or freed.
use melang.Base.{suc, ◌≡◌, refl, sym, ap, subst, ◌∙◌, true, none, some, leb}
use melang.Http.{Melon}
use melang.Http.Https.{
  Phase, connecting, handshaking, sending, receiving, Request, to_connect, to_exchange, Outside,
  Conn, finish, not_yet, closed, broken_off, SocketError, no_error, in_progress, another, Io,
  Progress, failed, waiting, answered, crash, World, in_flight, over,
}
use melang.Http.Https.Send.{build_request}
use melang.Http.Https.Receive.{then_send, after_handshake, drive_in, drive}
use melang.Http.Https.Handlers.{
  settle, taken, set_name, retry_max, secured, knows_conf, upgrade, connected, connect_handler,
  https_handler,
}
use melang.Http.Https.Settled.{
  count, IsFresh, Held, IsArmed, IsGood, IsSettled, resume_with-Resumed, if_both,
}
use melang.Http.Https.Steps.{
  IsTame, IsBuilt, registered-IsGood, arm-IsGood, build_request-IsBuilt, advance_send-IsGood,
  advance_recv-IsGood,
}

settle-IsSettled : (p : Progress) → IsGood p → (w : World) × (settle p ≡ some w) × IsSettled w
settle-IsSettled (failed r o) good =
    let (o', e, done) = resume_with-Resumed none r o good in (over o', e, done)
settle-IsSettled (waiting r o) good = (in_flight r o, refl, good)
settle-IsSettled (answered o) good = (over o, refl, good)
settle-IsSettled crash good = absurd good

module _ {H : Type 0} (melon : Melon H) (io : Io H) (tame : IsTame melon io) where
  then_send-IsGood : (p : Progress) → IsBuilt melon io p → IsGood (then_send melon io p)
  then_send-IsGood (waiting r o) held =
      advance_send-IsGood melon io (record r { phase = sending }) o refl held
  then_send-IsGood (failed r o) held = held
  then_send-IsGood (answered o) h = absurd h
  then_send-IsGood crash h = absurd h

  after_handshake-IsGood :
      (c : Conn) (r : Request) (o : Outside)
      → r.phase ≡ handshaking
      → Held r o
      → IsFresh handshaking r
      → IsGood (after_handshake melon io c r o)
  after_handshake-IsGood broken_off r o e held fresh = held
  after_handshake-IsGood closed r o e held fresh = held
  after_handshake-IsGood finish r o e held (no_parser, first) =
      then_send-IsGood (build_request melon io r o)
        (build_request-IsBuilt melon io r o tame held no_parser)
  after_handshake-IsGood not_yet r o e held fresh =
      arm-IsGood melon io true r o held (subst (λ q. IsFresh q r) (sym e) fresh)
        (λ a b. subst (λ q. IsArmed q (some (to_exchange a b))) (sym e) tt)

  drive_in-IsGood :
      (p : Phase) (r : Request) (o : Outside)
      → r.phase ≡ p
      → Held r o
      → IsFresh p r
      → IsGood (drive_in melon io p r o)
  drive_in-IsGood connecting r o e held fresh = held
  drive_in-IsGood handshaking r o e held fresh =
      after_handshake-IsGood io.handshake r o e held fresh
  drive_in-IsGood sending r o e held fresh = advance_send-IsGood melon io r o e held
  drive_in-IsGood receiving r o e held fresh = advance_recv-IsGood melon io r o tame e held

  drive-IsGood :
      (r : Request) (o : Outside) → Held r o → IsFresh r.phase r → IsGood (drive melon io r o)
  unfolding drive
  drive-IsGood r o held fresh = drive_in-IsGood r.phase r o refl held fresh

  secured-IsGood :
      (r : Request) (o : Outside) → Held r o → IsFresh handshaking r → IsGood (secured melon io r o)
  secured-IsGood r o held fresh =
      if_both IsGood (set_name io.set_sni r.sni) _ _
        (λ y.
          if_both IsGood (set_name io.set_verify_host r.vhost) _ _
            (λ y. drive-IsGood (record r { phase = handshaking }) o held fresh) (λ n. held))
        (λ n. held)

  upgrade-IsGood :
      (r : Request) (o : Outside) → Held r o → IsFresh connecting r → IsGood (upgrade melon io r o)
  upgrade-IsGood r o (a, b, c, d, e, f, g, conns, h) (no_conn, no_parser, first) =
      if_both IsGood (knows_conf melon io r) _ _
        (λ y.
          if_both IsGood io.tls_init _ _
            (λ y.
              secured-IsGood (record r { have_conn = true }) (record o { conns = suc o.conns })
                (a, b, c, d, e, f, g, ap suc (conns ∙ ap count no_conn), h) (no_parser, first))
            (λ n. (a, b, c, d, e, f, g, conns ∙ ap count no_conn, h)))
        (λ n. (a, b, c, d, e, f, g, conns, h))

  connected-IsGood :
      (s : SocketError) (r : Request) (o : Outside)
      → r.phase ≡ connecting
      → Held r o
      → IsFresh connecting r
      → IsGood (connected melon io s r o)
  connected-IsGood no_error r o e held fresh = upgrade-IsGood r o held fresh
  connected-IsGood in_progress r o e held fresh =
      if_both IsGood (leb (suc r.retry) retry_max) _ _
        (λ y.
          registered-IsGood io.event to_connect (record r { retry = suc r.retry }) o held
            (subst (λ q. IsFresh q (record r { retry = suc r.retry })) (sym e) fresh)
            (subst (λ q. IsArmed q (some to_connect)) (sym e) tt))
        (λ n. held)
  connected-IsGood another r o e held fresh = held

  pub connect_handler-IsSettled :
      (r : Request) (o : Outside)
      → r.phase ≡ connecting
      → Held r o
      → IsFresh connecting r
      → (w : World) × (connect_handler melon io r o ≡ some w) × IsSettled w
  unfolding connect_handler
  connect_handler-IsSettled r o e held fresh =
      settle-IsSettled (connected melon io io.so_error r (taken o))
        (connected-IsGood io.so_error r (taken o) e held fresh)

  pub https_handler-IsSettled :
      (r : Request) (o : Outside)
      → Held r o
      → IsFresh r.phase r
      → (w : World) × (https_handler melon io r o ≡ some w) × IsSettled w
  unfolding https_handler
  https_handler-IsSettled r o held fresh =
      settle-IsSettled (drive melon io r (taken o)) (drive-IsGood r (taken o) held fresh)
