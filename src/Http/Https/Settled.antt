-- ===== src/Http/Https/Settled.antt =====
-- https_request: what each step keeps, and what it frees.
use melang.Base.{
  ℕ, ◌≡◌, refl, sym, ap, ◌∙◌, Bool, true, false, ◌&&◌, Option, none, some, arith, if◌then◌else◌,
}
use melang.Http.Https.{
  Phase, connecting, handshaking, sending, receiving, Request, Registration, to_connect,
  to_exchange, Outside, Returned, Progress, failed, waiting, answered, crash, World, in_flight,
  over, release, unlink, state_free, continued, resume_with, has_timeout, ◌>>=◌,
}

abbrev pub count : Bool → ℕ
count true = 1
count false = 0

release-count : (b : Bool) → release b (count b) ≡ some 0
release-count true = refl
release-count false = refl

unlink_self : (b : Bool) → unlink b b ≡ some false
unlink_self true = refl
unlink_self false = refl

if_true : {A : Type 0} (b : Bool) (x y : A) → b ≡ true → (if b then x else y) ≡ x
if_true true x y h = refl
if_true false x y h = absurd (ground (arith, h))

-- What holds of both branches holds of the one that is taken.
pub if_both :
    {A : Type 0} (P : A → Type 0) (b : Bool) (x y : A)
    → (b ≡ true → P x)
    → (b ≡ false → P y)
    → P (if b then x else y)
if_both P true x y h k = h refl
if_both P false x y h k = k refl

-- Before the handshake there is no connection, before the request is made no parser.
abbrev pub IsFresh : Phase → Request → Type 0
IsFresh connecting r = (r.have_conn ≡ false) × (r.http ≡ false) × (r.request_built ≡ false)
IsFresh handshaking r = (r.http ≡ false) × (r.request_built ≡ false)
IsFresh p r = Unit

-- What the request says that it has is just what there is, and the coroutine is suspended.
abbrev pub Held : Request → Outside → Type 0
Held r o =
    (r.fd ≡ true)
    × (r.linked ≡ true)
    × (r.ctx ≡ true)
    × (o.in_chain ≡ true)
    × (o.suspended ≡ true)
    × (o.sockets ≡ 1)
    × (o.parsers ≡ count r.http)
    × (o.conns ≡ count r.have_conn)
    × (o.confs ≡ count (r.own_conf && r.conf))

-- Nothing is left of the request.
abbrev pub Released : Outside → Type 0
Released o =
    (o.sockets ≡ 0)
    × (o.parsers ≡ 0)
    × (o.conns ≡ 0)
    × (o.confs ≡ 0)
    × (o.armed ≡ none)
    × (o.timer ≡ false)
    × (o.in_chain ≡ false)

-- The handler that the event loop has fits the phase, and there is a timeout where one was asked for.
abbrev pub IsArmed : Phase → Option Registration → Type 0
IsArmed connecting (some to_connect) = Unit
IsArmed handshaking (some (to_exchange recv send)) = Unit
IsArmed sending (some (to_exchange recv send)) = Unit
IsArmed receiving (some (to_exchange recv send)) = Unit
IsArmed p h = ⊥

abbrev pub Waiting : Request → Outside → Type 0
Waiting r o =
    Held r o × IsFresh r.phase r × IsArmed r.phase o.armed × (o.timer ≡ has_timeout r.timeout)

-- Freed, with a coroutine that goes on.
abbrev pub Resumed : Outside → Type 0
Resumed o = Released o × (o.suspended ≡ false)

abbrev pub IsSettled : World → Type 0
IsSettled (in_flight r o) = Waiting r o
IsSettled (over o) = Resumed o

-- What a step leaves that its caller settles.
abbrev pub IsGood : Progress → Type 0
IsGood (failed r o) = Held r o
IsGood (waiting r o) = Waiting r o
IsGood (answered o) = Resumed o
IsGood crash = ⊥

pub state_free-Released :
    (r : Request) (o : Outside)
    → (r.fd ≡ true)
    → (r.linked && r.ctx) ≡ o.in_chain
    → o.sockets ≡ 1
    → o.parsers ≡ count r.http
    → o.conns ≡ count r.have_conn
    → o.confs ≡ count (r.own_conf && r.conf)
    → (o' : Outside) × (state_free r o ≡ some o') × Released o' × (o'.suspended ≡ o.suspended)
unfolding state_free
state_free-Released r o fd chain sockets parsers conns confs = (
  record o {
    armed = none;
    timer = false;
    in_chain = false;
    sockets = 0;
    parsers = 0;
    conns = 0;
    confs = 0;
  },
  rw
      (
        chain,
        unlink_self o.in_chain,
        fd,
        sockets,
        parsers,
        release-count r.http,
        conns,
        release-count r.have_conn,
        confs,
        release-count (r.own_conf && r.conf),
      )
      refl,
  (refl, refl, refl, refl, refl, refl, refl),
  refl,
)

-- Without a socket nothing is registered.
abbrev pub IsIdle : Bool → Outside → Type 0
IsIdle true o = Unit
IsIdle false o = (o.armed ≡ none) × (o.timer ≡ false)

-- The same for a request that has no socket yet.
pub state_free-either :
    (b : Bool) (r : Request) (o : Outside)
    → r.fd ≡ b
    → (r.linked && r.ctx) ≡ o.in_chain
    → o.sockets ≡ count b
    → o.parsers ≡ count r.http
    → o.conns ≡ count r.have_conn
    → o.confs ≡ count (r.own_conf && r.conf)
    → IsIdle b o
    → (o' : Outside) × (state_free r o ≡ some o') × Released o' × (o'.suspended ≡ o.suspended)
unfolding state_free
state_free-either true r o fd chain sockets parsers conns confs idle =
    state_free-Released r o fd chain sockets parsers conns confs
state_free-either false r o fd chain sockets parsers conns confs (armed, timer) = (
  record o { in_chain = false; sockets = 0; parsers = 0; conns = 0; confs = 0 },
  rw
      (
        chain,
        unlink_self o.in_chain,
        fd,
        sockets,
        parsers,
        release-count r.http,
        conns,
        release-count r.have_conn,
        confs,
        release-count (r.own_conf && r.conf),
      )
      refl,
  (refl, refl, refl, refl, armed, timer, refl),
  refl,
)

abbrev running : Option Returned → Outside → Outside
running none o = record o { suspended = false }
running (some v) o = record o { suspended = false; ret = some v }

continued-running :
    (v : Option Returned) (o : Outside) → o.suspended ≡ true → (continued v o ≡ some (running v o))
continued-running none o h = if_true o.suspended _ _ h
continued-running (some v) o h = if_true o.suspended _ _ h

-- A request that holds what there is is freed whole, and its coroutine goes on.
Resumed-after :
    (v : Option Returned) (r : Request) (o : Outside)
    → Held r o
    → (o' : Outside) × (state_free r (running v o) ≡ some o') × Resumed o'
Resumed-after none r o (fd, linked, ctx, in_chain, suspended, sockets, parsers, conns, confs) =
    let (o', e, free, s) =
      state_free-Released r (running none o) fd (rw (linked, ctx) (sym in_chain)) sockets parsers
        conns confs in
    (o', e, (free, s))
Resumed-after (some v) r o (fd, linked, ctx, in_chain, suspended, sockets, parsers, conns, confs) =
    let (o', e, free, s) =
      state_free-Released r (running (some v) o) fd (rw (linked, ctx) (sym in_chain)) sockets
        parsers conns confs in
    (o', e, (free, s))

pub resume_with-Resumed :
    (v : Option Returned) (r : Request) (o : Outside)
    → Held r o
    → (o' : Outside) × (resume_with v r o ≡ some (over o')) × Resumed o'
unfolding resume_with
resume_with-Resumed v r o held =
    let (o', e, done) = Resumed-after v r o held in
    let (fd, linked, ctx, in_chain, suspended, _, _, _, _) = held in
    let go = if_true r.ctx (continued v o) (some o) ctx ∙ continued-running v o suspended in
    (
      o',
      ap (λ m. m >>= λ p. state_free r p >>= λ q. some (over q)) go
          ∙ ap (λ m. m >>= λ q. some (over q)) e,
      done,
    )
