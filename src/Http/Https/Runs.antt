-- ===== src/Http/Https/Runs.antt =====
-- https_request: every run of a request, from event to event, up to the end of the request or of its
-- coroutine.
use melang.Base.{◌≡◌, refl, sym, ap, subst, ◌∙◌, true, false, none, some, if◌then◌else◌}
use melang.Http.{Melon}
use melang.Http.Https.{
  Phase, connecting, handshaking, sending, receiving, Request, Registration, to_connect,
  to_exchange, Outside, Returned, Io, World, in_flight, over, unlink, state_free, ctx_https_free,
  ◌>>=◌,
}
use melang.Http.Https.Handlers.{taken, timeout_handler, handler_of}
use melang.Http.Https.Settled.{
  IsFresh, Held, Released, IsArmed, Waiting, IsSettled, state_free-Released, resume_with-Resumed,
}
use melang.Http.Https.Steps.{IsTame}
use melang.Http.Https.Reached.{connect_handler-IsSettled, https_handler-IsSettled}

-- An event or its timeout, for a request in flight. What the calls return is any `Io` that is tame.
pub data Step {H : Type 0} (melon : Melon H) (r : Request) (o : Outside) (w : World) : Type 0 where
  event :
      (io : Io H) (h : Registration)
      → IsTame melon io
      → o.armed ≡ some h
      → handler_of melon io h r o ≡ some w
      → Step melon r o w
  timed_out :
      (io : Io H) → o.timer ≡ true → timeout_handler melon io r o ≡ some w → Step melon r o w

pub data Reach {H : Type 0} (melon : Melon H) (r : Request) (o : Outside) : World → Type 0 where
  start : Reach melon r o (in_flight r o)
  step :
      {q : Request} {p : Outside} {w : World}
      → Reach melon r o (in_flight q p)
      → Step melon q p w
      → Reach melon r o w

handler_of-IsSettled :
    {H : Type 0} (melon : Melon H) (io : Io H) (h : Registration) (p : Phase) (r : Request)
    (o : Outside)
    → IsTame melon io
    → r.phase ≡ p
    → Held r o
    → IsFresh p r
    → IsArmed p (some h)
    → (w : World) × (handler_of melon io h r o ≡ some w) × IsSettled w
handler_of-IsSettled melon io to_connect connecting r o tame e held fresh fits =
    connect_handler-IsSettled melon io tame r o e held fresh
handler_of-IsSettled melon io (to_exchange a b) handshaking r o tame e held fresh fits =
    https_handler-IsSettled melon io tame r o held (subst (λ q. IsFresh q r) (sym e) fresh)
handler_of-IsSettled melon io (to_exchange a b) sending r o tame e held fresh fits =
    https_handler-IsSettled melon io tame r o held (subst (λ q. IsFresh q r) (sym e) fresh)
handler_of-IsSettled melon io (to_exchange a b) receiving r o tame e held fresh fits =
    https_handler-IsSettled melon io tame r o held (subst (λ q. IsFresh q r) (sym e) fresh)
handler_of-IsSettled melon io to_connect handshaking r o tame e held fresh fits = absurd fits
handler_of-IsSettled melon io to_connect sending r o tame e held fresh fits = absurd fits
handler_of-IsSettled melon io to_connect receiving r o tame e held fresh fits = absurd fits
handler_of-IsSettled melon io (to_exchange a b) connecting r o tame e held fresh fits = absurd fits

timeout_handler-IsSettled :
    {H : Type 0} (melon : Melon H) (io : Io H) (r : Request) (o : Outside)
    → Held r o
    → (w : World) × (timeout_handler melon io r o ≡ some w) × IsSettled w
unfolding timeout_handler
timeout_handler-IsSettled melon io r o held =
    let (o', e, done) =
      resume_with-Resumed (if io.nil_value then some Returned.nil else none) r (taken o) held in
    (over o', e, done)

-- From a request that waits, where the calls of one event return what they will, but making the text
-- of the request and parsing the response follow no bad pointer, and a response with a body only comes
-- where as many bytes can be read behind the first pointer of the request's array (`IsTame`): the
-- handler that is registered returns, and the request waits again, or it is freed whole and its
-- coroutine goes on.
pub handler_of-Waiting :
    {H : Type 0} (melon : Melon H) (io : Io H) (h : Registration) (r : Request) (o : Outside)
    → IsTame melon io
    → Waiting r o
    → o.armed ≡ some h
    → (w : World) × (handler_of melon io h r o ≡ some w) × IsSettled w
handler_of-Waiting melon io h r o tame (held, fresh, fits, timer) armed =
    handler_of-IsSettled melon io h r.phase r o tame refl held fresh
      (subst (λ a. IsArmed r.phase a) armed fits)

same_world : {w v : World} → some w ≡ some v → w ≡ v
same_world e = cc e

Step-IsSettled :
    {H : Type 0} (melon : Melon H) (r : Request) (o : Outside) (w : World)
    → Waiting r o
    → Step melon r o w
    → IsSettled w
Step-IsSettled melon r o w waits (event io h tame armed run) =
    let (v, e, settled) = handler_of-Waiting melon io h r o tame waits armed in
    subst IsSettled (same_world (sym e ∙ run)) settled
Step-IsSettled melon r o w (held, _, _, _) (timed_out io armed run) =
    let (v, e, settled) = timeout_handler-IsSettled melon io r o held in
    subst IsSettled (same_world (sym e ∙ run)) settled

steps-IsSettled :
    {H : Type 0} (melon : Melon H) (r : Request) (o : Outside) {w : World}
    → Waiting r o
    → Reach melon r o w
    → IsSettled w
steps-IsSettled melon r o waits start = waits
steps-IsSettled melon r o {w} waits (step {q} {p} reach st) =
    Step-IsSettled melon q p w (steps-IsSettled melon r o waits reach) st

ctx_https_free-Released :
    (w : World) → IsSettled w → (o : Outside) × (ctx_https_free w ≡ some (over o)) × Released o
unfolding ctx_https_free
ctx_https_free-Released (over o) (free, _) = (o, refl, free)
ctx_https_free-Released (in_flight r o)
      ((fd, linked, ctx, in_chain, suspended, s, p, c, f), _, _, _) =
    let (o', e, free, _) =
      state_free-Released (record r { linked = false; ctx = false }) (record o { in_chain = false })
        fd refl s p c f in
    (
      o',
      ap
            (λ b. unlink true b >>= λ b.
              state_free (record r { linked = false; ctx = false }) (record o { in_chain = b })
              >>= λ q. some (over q))
            in_chain
          ∙ ap (λ m. m >>= λ q. some (over q)) e,
      free,
    )

-- In every state that a waiting request reaches by timeouts and events that are tame: the coroutine is
-- suspended and the event loop has the handler of its phase, with the timeout if one was asked for; or
-- the coroutine goes on and socket, parser, connection and conf are freed, each once. And when the
-- coroutine ends in such a state, all of them are freed as well.
pub Reach-IsSettled :
    {H : Type 0} (melon : Melon H) (r : Request) (o : Outside) {w : World}
    → Waiting r o
    → Reach melon r o w
    → IsSettled w × (o' : Outside) × (ctx_https_free w ≡ some (over o')) × Released o'
Reach-IsSettled melon r o {w} waits reach =
    let settled = steps-IsSettled melon r o waits reach in
    let (o', e, free) = ctx_https_free-Released w settled in (settled, o', e, free)
