-- ===== src/MsgQueue/Topics.antt =====
-- lib_src/msgqueue/mln_lang_msgqueue_impl.c: a context's "mq" resource, `subscribe`, `unsubscribe`.
use melang.Base.{
  ℕ, ◌≡◌, refl, List, [], Option, none, some, if◌then◌else◌, ◌>>=◌, Option-cases, inl, inr,
}
use melang.Script.{Bytes, Value, Env, Result, ok, err, fault}
use melang.MsgQueue.Args.{qname_arg}
use melang.MsgQueue.{
  Msg, CtxMq, Wait, wait_free, wait_chain_del, State, Grants, nil_site, topic_site, topic_node_site,
  Answer, value, failed, update, update_at, gives_up,
}

-- mln_lang_ctx_mq_new, for a context that imports the library
abbrev pub ctx_mq_new : CtxMq
ctx_mq_new = record { mq_wait = none; topics = λ _. none }

abbrev pub set_topic : ℕ → Bytes → Option (List Msg) → CtxMq → State → State
set_topic c q t l s = record s {
  ctxs = update_at s.ctxs c (some (record l { topics = update l.topics q t }));
}

abbrev pub subscribe_new :
    Grants → ℕ → Bytes → State → CtxMq → Option (List Msg) → Option (Answer × State)
subscribe_new g c q s l (some ms) = some (value Value.nil, s)
subscribe_new g c q s l none =
    if g topic_site
    then (if g topic_node_site
        then some (value Value.nil, set_topic c q (some []) l s)
        else gives_up s)
    else gives_up s

abbrev pub subscribe_ctx : Grants → ℕ → Bytes → State → Option CtxMq → Option (Answer × State)
subscribe_ctx g c q s none = none
subscribe_ctx g c q s (some l) = subscribe_new g c q s l (l.topics q)

abbrev pub subscribe_with : Grants → ℕ → State → Result Bytes → Option (Answer × State)
subscribe_with g c s (err e) = some (failed e, s)
subscribe_with g c s fault = none
subscribe_with g c s (ok q) = if g nil_site then subscribe_ctx g c q s (s.ctxs c) else gives_up s

-- mln_lang_msgqueue_topic_subscribe_process
unfoldable pub subscribe_process : Grants → ℕ → Env → State → Option (Answer × State)
subscribe_process g c env s = subscribe_with g c s (qname_arg env)

-- A topic goes with the messages that it still holds.
abbrev pub unsubscribe_ctx : ℕ → Bytes → State → Option CtxMq → Option (Answer × State)
unsubscribe_ctx c q s none = none
unsubscribe_ctx c q s (some l) = some (value Value.nil, set_topic c q none l s)

abbrev pub unsubscribe_with : Grants → ℕ → State → Result Bytes → Option (Answer × State)
unsubscribe_with g c s (err e) = some (failed e, s)
unsubscribe_with g c s fault = none
unsubscribe_with g c s (ok q) = if g nil_site then unsubscribe_ctx c q s (s.ctxs c) else gives_up s

-- mln_lang_msgqueue_topic_unsubscribe_process
unfoldable pub unsubscribe_process : Grants → ℕ → Env → State → Option (Answer × State)
unsubscribe_process g c env s = unsubscribe_with g c s (qname_arg env)

-- mln_lang_mq_wait_free on a wait object whose `ctx` may be NULL. The object has its heap node, so the
-- function reads `ctx->lang`.
abbrev pub wait_free_of : Option ℕ → ℕ → State → Option State
wait_free_of none p s = none
wait_free_of (some c) p s = wait_free p s

-- The wait object of a context that ends: its `ctx` is set to NULL, it leaves the chain, and it is freed.
abbrev pub free_wait : ℕ → State → Option Wait → Option State
free_wait p s none = none
free_wait p s (some w) = wait_chain_del p w.mq s >>= wait_free_of none p

abbrev pub without_ctx_mq : ℕ → State → State
without_ctx_mq c s = record s { ctxs = update_at s.ctxs c none }

abbrev pub free_ctx_mq : ℕ → State → Option CtxMq → Option State
free_ctx_mq c s none = none
free_ctx_mq c s (some l) = elim l.mq_wait [
  | none ↦ some (without_ctx_mq c s)
  | some p ↦ free_wait p s (s.objects p) >>= λ t. some (without_ctx_mq c t)
]

-- mln_lang_ctx_mq_free, when a context ends.
unfoldable pub ctx_mq_free : ℕ → State → Option State
ctx_mq_free c s = free_ctx_mq c s (s.ctxs c)

-- The read of `ctx` follows NULL, whatever chain the object has left.
pub free_wait-fails : (p : ℕ) (s : State) (o : Option Wait) → free_wait p s o ≡ none
free_wait-fails p s none = refl
free_wait-fails p s (some w) = elim (Option-cases (wait_chain_del p w.mq s)) [
  | inl e ↦ rw e refl
  | inr (t, e) ↦ rw e refl
]
