-- ===== src/MsgQueue/Recv.antt =====
-- lib_src/msgqueue/mln_lang_msgqueue_impl.c: `recv`.
use melang.Base.{
  ℕ, ◌+◌, ◌%◌, ◌^◌, true, false, List, [], ◌∷◌, ◌++◌, Option, none, some, if◌then◌else◌, ◌>>=◌,
}
use melang.Script.{Bytes, Value, Env, Result, ok, err, fault}
use melang.MsgQueue.Args.{RecvArgs, recv_args}
use melang.MsgQueue.{
  Msg, Mq, Wait, CtxMq, State, suspend, timer_set, Grants, nil_site, wait_site, value_site,
  timer_site, Answer, value, failed, update_at, log, to_value, put_mq, delete_mq, is_nil,
  ctx_mq_join, wait_free, wait_chain_del, fetch_or_new, gives_up,
}
use melang.MsgQueue.Send.{set_topics}

-- What mln_lang_mq_msg_subscribe_get returns: 0 with a value, 1, or -1.
pub data Subscribed : Type 0 where
  got : Value → State → Subscribed
  nothing : Subscribed
  failure : Subscribed

abbrev pub first_of_topic : Grants → ℕ → Bytes → State → CtxMq → Option (List Msg) → Subscribed
first_of_topic g c q s l none = nothing
first_of_topic g c q s l (some []) = nothing
first_of_topic g c q s l (some (m ∷ ms)) =
    if g value_site then got (to_value m) (set_topics c l q ms s) else failure

abbrev pub of_context : Grants → ℕ → Bytes → State → Option CtxMq → Option Subscribed
of_context g c q s none = none
of_context g c q s (some l) = some (first_of_topic g c q s l (l.topics q))

-- mln_lang_mq_msg_subscribe_get
unfoldable pub mq_msg_subscribe_get : Grants → ℕ → Bytes → State → Option Subscribed
mq_msg_subscribe_get g c q s = of_context g c q s (s.ctxs c)

-- The first message of a queue at which nobody waits; the queue goes if that was the last.
abbrev pub take_first : Grants → Bytes → Msg → List Msg → State → Option (Answer × State)
take_first g q m [] s =
    if g value_site then some (value (to_value m), delete_mq q s) else gives_up s
take_first g q m (n ∷ ms) s =
    if g value_site
    then some (value (to_value m), put_mq q (record { msgs = n ∷ ms; waits = [] }) s)
    else gives_up s

-- The wait object joins the chain, with the time at which to give up.
abbrev pub linked : ℕ → Bytes → Mq → Wait → State → State
linked c q mq w s =
    put_mq q (record mq { waits = mq.waits ++ c ∷ [] })
      (record s { objects = update_at s.objects c (some w) })

abbrev pub suspended : ℕ → State → Option (Answer × State)
suspended c s = do s' ← ctx_mq_join c c s; some (value Value.nil, log (suspend c) s')

-- The timer could not be set: the wait object is taken out again, of the chain and of the heap.
abbrev pub undone : ℕ → Bytes → State → Option (Answer × State)
undone c q s = do s1 ← wait_chain_del c q s; s2 ← wait_free c s1; gives_up s2

-- gettimeofday in microseconds plus the timeout, as an unsigned 64-bit number. The first wait in
-- the heap sets the timer.
abbrev pub with_timeout : Grants → ℕ → Bytes → Mq → ℕ → State → Option (Answer × State)
with_timeout g c q mq at s =
    let s1 =
      linked c q mq (record { mq = q; timestamp = at; in_heap = true })
        (record s { mq_timeout = c ∷ s.mq_timeout }) in
    if is_nil s.mq_timeout
    then (if g timer_site
        then suspended c (log timer_set (record s1 { timers = s1.timers + 1 }))
        else undone c q s1)
    else suspended c s1

abbrev pub waiting_for : Grants → ℕ → Bytes → Mq → ℕ → State → Option ℕ → Option (Answer × State)
waiting_for g c q mq now s none =
    suspended c (linked c q mq (record { mq = q; timestamp = 0; in_heap = false }) s)
waiting_for g c q mq now s (some t) = with_timeout g c q mq ((now + t) % 2 ^ 64) s

-- A message is taken at once only where nobody waits yet.
abbrev pub take_or_wait :
    Grants → ℕ → Bytes → Option ℕ → ℕ → State → List Msg → List ℕ → Option (Answer × State)
take_or_wait g c q t now s (m ∷ ms) [] = take_first g q m ms s
take_or_wait g c q t now s [] [] = waiting_for g c q (record { msgs = []; waits = [] }) now s t
take_or_wait g c q t now s ms (p ∷ ps) =
    waiting_for g c q (record { msgs = ms; waits = p ∷ ps }) now s t

unfoldable pub get_from :
    Grants → ℕ → Bytes → Option ℕ → ℕ → State → Option (Mq × State) → Option (Answer × State)
get_from g c q t now s none = gives_up s
get_from g c q t now s (some (mq, s0)) =
    if g nil_site
    then (if g wait_site then take_or_wait g c q t now s0 mq.msgs mq.waits else gives_up s0)
    else gives_up s0

-- mln_lang_mq_msg_get for the context `c` at the time `now`
unfoldable pub mq_msg_get : Grants → ℕ → Bytes → Option ℕ → ℕ → State → Option (Answer × State)
mq_msg_get g c q t now s = get_from g c q t now s (fetch_or_new g q s)

abbrev pub recv_from :
    Grants → ℕ → RecvArgs → ℕ → State → Option Subscribed → Option (Answer × State)
recv_from g c a now s none = none
recv_from g c a now s (some (got v s')) = some (value v, s')
recv_from g c a now s (some failure) = gives_up s
recv_from g c a now s (some nothing) = mq_msg_get g c a.qname a.timeout now s

abbrev pub recv_with : Grants → ℕ → ℕ → State → Result RecvArgs → Option (Answer × State)
recv_with g c now s (err e) = some (failed e, s)
recv_with g c now s fault = none
recv_with g c now s (ok a) = recv_from g c a now s (mq_msg_subscribe_get g c a.qname s)

-- mln_lang_msgqueue_mq_recv_process
unfoldable pub recv_process : Grants → ℕ → ℕ → Env → State → Option (Answer × State)
recv_process g c now env s = recv_with g c now s (recv_args env)
