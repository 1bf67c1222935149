-- ===== src/MsgQueue/Send.antt =====
-- lib_src/msgqueue/mln_lang_msgqueue_impl.c: `send`, to a queue and to the subscribers of a topic.
use melang.Base.{
  ℕ, Bool, true, false, List, [], ◌∷◌, ◌++◌, Option, none, some, if◌then◌else◌, ◌>>=◌,
}
use melang.Script.{Bytes, Value, Env, Result, ok, err, fault}
use melang.MsgQueue.Args.{SendArgs, send_args}
use melang.MsgQueue.{
  Msg, Mq, Wait, CtxMq, State, set_ret_var, continues, Grants, msg_site, nil_site, value_site,
  dup_site, Answer, value, failed, update, update_at, log, msg_new, to_value, put_mq, ctx_mq_remove,
  wait_free, wait_chain_del, fetch_or_new, gives_up,
}

-- The waiter `p` gets the message: it leaves the queue, and its context goes on.
unfoldable pub wake : Bytes → ℕ → Msg → State → Option State
wake q p m s = do
  let s1 = log (set_ret_var p (to_value m)) s
  s2 ← ctx_mq_remove p s1
  s3 ← wait_chain_del p q (log (continues p) s2)
  wait_free p s3

-- The first message goes to the first waiter, if there is one and its value can be made.
abbrev pub hand_out : Grants → Bytes → State → List Msg → List ℕ → Option State
hand_out g q s ms [] = some s
hand_out g q s [] (p ∷ ps) = none
hand_out g q s (m ∷ ms) (p ∷ ps) =
    if g value_site then wake q p m (put_mq q (record { msgs = ms; waits = p ∷ ps }) s) else some s

abbrev pub with_nil : Option State → Option (Answer × State)
with_nil none = none
with_nil (some s) = some (value Value.nil, s)

unfoldable pub enqueue :
    Grants → Bytes → Msg → Option (Mq × State) → State → Option (Answer × State)
enqueue g q m none s = gives_up s
enqueue g q m (some (mq, s0)) s =
    let ms = mq.msgs ++ m ∷ [] in
    let s1 = put_mq q (record mq { msgs = ms }) s0 in
    if g nil_site then with_nil (hand_out g q s1 ms mq.waits) else gives_up s1

abbrev pub send_msg : Grants → Bytes → State → Option Msg → Option (Answer × State)
send_msg g q s none = gives_up s
send_msg g q s (some m) = enqueue g q m (fetch_or_new g q s) s

-- mln_lang_mq_msg_set
unfoldable pub mq_msg_set : Grants → Bytes → Value → State → Option (Answer × State)
mq_msg_set g q v s = send_msg g q s (msg_new (g msg_site) v)

-- What mln_lang_mq_msg_broadcast_ctx returns, 0 or -1, with the state.
abbrev pub Sent : Type 0
Sent = Option (Bool × State)

abbrev pub set_topics : ℕ → CtxMq → Bytes → List Msg → State → State
set_topics c l q ms s = record s {
  ctxs = update_at s.ctxs c (some (record l { topics = update l.topics q (some ms) }));
}

abbrev pub done_with : Option State → Sent
done_with none = none
done_with (some s) = some (true, s)

-- The context waits, at whatever queue: it is woken with the message, which leaves the topic again.
abbrev pub wake_subscriber : Grants → ℕ → Msg → State → State → ℕ → Option Wait → Sent
wake_subscriber g c m kept s p none = none
wake_subscriber g c m kept s p (some w) =
    if g value_site then done_with (wake w.mq p m s) else some (false, kept)

abbrev pub to_subscriber : Grants → ℕ → Bytes → Msg → State → CtxMq → List Msg → Option ℕ → Sent
to_subscriber g c q m s l ms none = some (true, set_topics c l q (ms ++ m ∷ []) s)
to_subscriber g c q m s l ms (some p) =
    wake_subscriber g c m (set_topics c l q (ms ++ m ∷ []) s) s p (s.objects p)

abbrev pub add_to_topic : Grants → ℕ → Bytes → State → CtxMq → List Msg → Option Msg → Sent
add_to_topic g c q s l ms none = some (false, s)
add_to_topic g c q s l ms (some m) = to_subscriber g c q m s l ms l.mq_wait

abbrev pub to_topic : Grants → ℕ → Bytes → Value → State → CtxMq → Option (List Msg) → Sent
to_topic g c q v s l none = some (true, s)
to_topic g c q v s l (some ms) = add_to_topic g c q s l ms (msg_new (g msg_site) v)

abbrev pub to_context : Grants → ℕ → Bytes → Value → State → Option CtxMq → Sent
to_context g c q v s none = none
to_context g c q v s (some l) = to_topic g c q v s l (l.topics q)

-- mln_lang_mq_msg_broadcast_ctx
unfoldable pub broadcast_ctx : Grants → ℕ → Bytes → Value → State → Sent
broadcast_ctx g c q v s = to_context g c q v s (s.ctxs c)

-- The two loops of mln_lang_mq_msg_broadcast over the contexts that run and those that wait. Each
-- reads the next context before it visits the current one, and a visit moves only that one.
abbrev pub unless_failed : Sent → (State → Sent) → Sent
unless_failed none next = none
unless_failed (some (false, s)) next = some (false, s)
unless_failed (some (true, s)) next = next s

unfoldable pub broadcast_to : (ℕ → Grants) → List ℕ → Bytes → Value → State → Sent
broadcast_to g [] q v s = some (true, s)
broadcast_to g (c ∷ cs) q v s =
    unless_failed (broadcast_ctx (g c) c q v s) (λ s'. broadcast_to g cs q v s')

abbrev pub answer_nil : Grants → Sent → Option (Answer × State)
answer_nil g none = none
answer_nil g (some (false, s)) = gives_up s
answer_nil g (some (true, s)) = if g nil_site then some (value Value.nil, s) else gives_up s

-- mln_lang_mq_msg_broadcast
unfoldable pub mq_msg_broadcast :
    Grants → (ℕ → Grants) → List ℕ → List ℕ → Bytes → Value → State → Option (Answer × State)
mq_msg_broadcast g gs running waiting q v s =
    answer_nil g (broadcast_to gs (running ++ waiting) q v s)

-- A string is copied first; the copy is freed again when the message has been passed on.
abbrev pub copied : Grants → Value → Bool
copied g (Value.string s) = g dup_site
copied g _ = true

abbrev pub send_with :
    Grants → (ℕ → Grants) → List ℕ → List ℕ → State → Result SendArgs → Option (Answer × State)
send_with g gs running waiting s (err e) = some (failed e, s)
send_with g gs running waiting s fault = none
send_with g gs running waiting s (ok a) =
    if copied g a.msg
    then (if a.as_topic
        then mq_msg_broadcast g gs running waiting a.qname a.msg s
        else mq_msg_set g a.qname a.msg s)
    else gives_up s

-- mln_lang_msgqueue_mq_send_process
unfoldable pub send_process :
    Grants → (ℕ → Grants) → List ℕ → List ℕ → Env → State → Option (Answer × State)
send_process g gs running waiting env s = send_with g gs running waiting s (send_args env)
