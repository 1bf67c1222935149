-- ===== src/Http/Https/Steps.antt =====
-- https_request: each step of the machine and each handler keeps what a request holds.
use melang.Base.{
  suc, ◌≡◌, refl, sym, ap, subst, ◌∙◌, Bool, true, false, not, Option, none, some, Bool-cases, inl,
  inr, if◌then◌else◌,
}
use melang.Script.{Bytes, Result, ok, err, fault}
use melang.Http.{Melon, Message, Parsed, complete, incomplete, broken, Source, buffer}
use melang.Http.Parse.{Entries, result_build, result_left}
use melang.Http.Create.{generate}
use melang.Http.Bounds.{IsAnswer}
use melang.Http.Https.{
  Phase, sending, receiving, Request, Registration, to_exchange, Outside, Returned, Conn, finish,
  not_yet, closed, broken_off, Io, Progress, failed, waiting, registered,
}
use melang.Http.Https.Send.{
  arm, dropped, serialized, build_request, all_sent, after_send, advance_send, direction,
}
use melang.Http.Https.Receive.{
  ended, moved_by, parsed, responded, wait_more, after_parse, after_recv, advance_recv,
}
use melang.Http.Https.Settled.{count, IsFresh, Held, IsArmed, IsGood, resume_with-Resumed, if_both}

pub registered-IsGood :
    (b : Bool) (h : Registration) (r : Request) (o : Outside)
    → Held r o
    → IsFresh r.phase r
    → IsArmed r.phase (some h)
    → IsGood (registered b h r o)
registered-IsGood false h r o held fresh fits = held
registered-IsGood true h r o held fresh fits = (held, fresh, fits, refl)

module _ {H : Type 0} (melon : Melon H) (io : Io H) where
  -- Making the text of the request ends and so does parsing the response with its body handler; and where
  -- a response that is there has a body, as many bytes can be read where the array is taken for a buffer.
  abbrev pub IsTame : Type 0
  IsTame =
      IsAnswer (generate melon io.create io.request melon.new)
      × ((p : Result (Parsed H))
          → parsed melon io io.arrived ≡ some p
          → IsAnswer p
            × ((m : Message H) (left : Bytes)
                → p ≡ ok (complete m left)
                → IsAnswer (result_build melon io.build m (Source.dictionary 0 io.memory))))

  pub arm-IsGood :
      (recv : Bool) (r : Request) (o : Outside)
      → Held r o
      → IsFresh r.phase r
      → ((a b : Bool) → IsArmed r.phase (some (to_exchange a b)))
      → IsGood (arm melon io recv r o)
  arm-IsGood recv r o held fresh fits =
      registered-IsGood io.event
        (to_exchange (direction io.want_read io.want_write recv)
          (direction io.want_write io.want_read (not recv)))
        r o held fresh (fits _ _)

  dropped-IsGood :
      (r : Request) (o : Outside)
      → Held r o
      → r.http ≡ false
      → IsGood (dropped melon io (record r { http = true }) (record o { parsers = suc o.parsers }))
  dropped-IsGood r o (a, b, c, d, e, f, parsers, g, h) none_yet =
      (a, b, c, d, e, f, parsers ∙ ap count none_yet, g, h)

  -- A request that is made, or not.
  abbrev pub IsBuilt : Progress → Type 0
  IsBuilt (waiting r o) = Held r o
  IsBuilt (failed r o) = Held r o
  IsBuilt p = ⊥

  serialized-IsBuilt :
      (s : Result Bytes) (r : Request) (o : Outside)
      → Held r o
      → r.http ≡ false
      → IsAnswer s
      → IsBuilt
          (serialized melon io s (record r { http = true }) (record o { parsers = suc o.parsers }))
  serialized-IsBuilt (ok s) r o (a, b, c, d, e, f, parsers, g, h) none_yet answer =
      elim (Bool-cases io.chain) [
        | inl y ↦ rw y (a, b, c, d, e, f, ap suc (parsers ∙ ap count none_yet), g, h)
        | inr n ↦ rw n (a, b, c, d, e, f, parsers ∙ ap count none_yet, g, h)
      ]
  serialized-IsBuilt (err e) r o held none_yet answer = dropped-IsGood r o held none_yet
  serialized-IsBuilt fault r o held none_yet answer = absurd answer

  refused-Held :
      (r : Request) (o : Outside) → Held r o → r.http ≡ false → Held (record r { http = false }) o
  refused-Held r o (a, b, c, d, e, f, parsers, g, h) none_yet =
      (a, b, c, d, e, f, parsers ∙ ap count none_yet, g, h)

  pub build_request-IsBuilt :
      (r : Request) (o : Outside)
      → IsTame
      → Held r o
      → r.http ≡ false
      → IsBuilt (build_request melon io r o)
  build_request-IsBuilt r o (answers, _) held none_yet =
      if_both IsBuilt r.request_built _ _ (λ y. held)
        (λ n.
          if_both IsBuilt io.http_init _ _
            (λ y.
              serialized-IsBuilt (generate melon io.create io.request melon.new) r o held none_yet
                answers)
            (λ n. refused-Held r o held none_yet))

  -- Waiting for events of the exchange, in a phase that has them.
  in_phase-IsGood :
      (p : Phase) (recv : Bool) (r : Request) (o : Outside)
      → r.phase ≡ p
      → Held r o
      → ((q : Request) → IsFresh p q)
      → ((a b : Bool) → IsArmed p (some (to_exchange a b)))
      → IsGood (arm melon io recv r o)
  in_phase-IsGood p recv r o e held fresh fits =
      arm-IsGood recv r o held (subst (λ q. IsFresh q r) (sym e) (fresh r))
        (λ a b. subst (λ q. IsArmed q (some (to_exchange a b))) (sym e) (fits a b))

  sent-IsGood :
      (r : Request) (o : Outside)
      → r.phase ≡ sending
      → Held r o
      → IsGood (
          if all_sent melon io
          then arm melon io true (record r { phase = receiving }) o
          else arm melon io false r o)
  sent-IsGood r o e held =
      if_both IsGood (all_sent melon io) _ _
        (λ y. arm-IsGood true (record r { phase = receiving }) o held tt (λ a b. tt))
        (λ n. in_phase-IsGood sending false r o e held (λ q. tt) (λ a b. tt))

  after_send-IsGood :
      (c : Conn) (r : Request) (o : Outside)
      → r.phase ≡ sending
      → Held r o
      → IsGood (after_send melon io c r o)
  after_send-IsGood broken_off r o e held = held
  after_send-IsGood closed r o e held = held
  after_send-IsGood finish r o e held = sent-IsGood r o e held
  after_send-IsGood not_yet r o e held = sent-IsGood r o e held

  pub advance_send-IsGood :
      (r : Request) (o : Outside)
      → r.phase ≡ sending
      → Held r o
      → IsGood (advance_send melon io r o)
  unfolding advance_send
  advance_send-IsGood r o e held = after_send-IsGood io.sent r o e held

  wait_more-IsGood :
      (c : Conn) (r : Request) (o : Outside)
      → r.phase ≡ receiving
      → Held r o
      → IsGood (wait_more melon io c r o)
  wait_more-IsGood closed r o e held = held
  wait_more-IsGood broken_off r o e held =
      in_phase-IsGood receiving true r o e held (λ q. tt) (λ a b. tt)
  wait_more-IsGood finish r o e held =
      in_phase-IsGood receiving true r o e held (λ q. tt) (λ a b. tt)
  wait_more-IsGood not_yet r o e held =
      in_phase-IsGood receiving true r o e held (λ q. tt) (λ a b. tt)

  pub moved_by-Held :
      (from : Source) (r : Request) (o : Outside) → Held r o → Held r (moved_by melon io from o)
  moved_by-Held (buffer bs) r o held = held
  moved_by-Held (Source.dictionary moved memory) r o held = held

  responded-IsGood :
      (res : Result (Entries × Source)) (r : Request) (o : Outside)
      → Held r o
      → IsAnswer res
      → IsGood (responded melon io res r o)
  responded-IsGood (ok (es, from)) r o held h =
      let (o', e, done) = resume_with-Resumed (some (Returned.dictionary es)) r o held in
      subst (λ w. IsGood (ended w)) (sym e) done
  responded-IsGood (err e) r o held h = held
  responded-IsGood fault r o held h = absurd h

  after_parse-IsGood :
      (p : Option (Result (Parsed H))) (r : Request) (o : Outside)
      → r.phase ≡ receiving
      → Held r o
      → ((q : Result (Parsed H))
          → p ≡ some q
          → IsAnswer q
            × ((m : Message H) (left : Bytes)
                → q ≡ ok (complete m left)
                → IsAnswer (result_build melon io.build m (Source.dictionary 0 io.memory))))
      → IsGood (after_parse melon io p r o)
  after_parse-IsGood none r o e held h = wait_more-IsGood io.received r o e held
  after_parse-IsGood (some (ok incomplete)) r o e held h = wait_more-IsGood io.received r o e held
  after_parse-IsGood (some (ok broken)) r o e held h = held
  after_parse-IsGood (some (ok (complete m left))) r o e held h =
      let from = Source.dictionary 0 io.memory in
      let left_over = result_left melon io.build m from in
      responded-IsGood (result_build melon io.build m from) r (moved_by melon io left_over o)
        (moved_by-Held left_over r o held) ((h (ok (complete m left)) refl).1 m left refl)
  after_parse-IsGood (some (err x)) r o e held h = held
  after_parse-IsGood (some fault) r o e held h = absurd ((h fault refl).0)

  after_recv-IsGood :
      (c : Conn) (r : Request) (o : Outside)
      → IsTame
      → r.phase ≡ receiving
      → Held r o
      → IsGood (after_recv melon io c r o)
  after_recv-IsGood broken_off r o tame e held = held
  after_recv-IsGood closed r o tame e held =
      after_parse-IsGood (parsed melon io io.arrived) r o e held tame.1
  after_recv-IsGood finish r o tame e held =
      after_parse-IsGood (parsed melon io io.arrived) r o e held tame.1
  after_recv-IsGood not_yet r o tame e held =
      after_parse-IsGood (parsed melon io io.arrived) r o e held tame.1

  pub advance_recv-IsGood :
      (r : Request) (o : Outside)
      → IsTame
      → r.phase ≡ receiving
      → Held r o
      → IsGood (advance_recv melon io r o)
  unfolding advance_recv
  advance_recv-IsGood r o tame e held = after_recv-IsGood io.received r o tame e held
