-- ===== src/MsgQueue/Keeps.antt =====
-- lib_src/msgqueue/mln_lang_msgqueue_impl.c: broadcasts and subscriptions, for any
-- predicate of the state that waking a context keeps and that does not look at the contexts.
use melang.Base.{
  ℕ, Bool, true, false, List, [], ◌∷◌, ◌++◌, Option, none, some, inl, inr, Bool-cases, Option-cases,
}
use melang.Script.{Bytes, Value, Env, Result, ok, err, fault}
use melang.MsgQueue.{
  Msg, CtxMq, State, Grants, msg_site, nil_site, value_site, topic_site, topic_node_site, msg_new,
}
use melang.MsgQueue.Args.{qname_arg, SendArgs, send_args}
use melang.MsgQueue.Send.{
  wake, with_nil, mq_msg_set, to_subscriber, done_with, broadcast_ctx, broadcast_to, unless_failed,
  answer_nil, mq_msg_broadcast, copied, send_with, send_process,
}
use melang.MsgQueue.Topics.{
  subscribe_new, subscribe_with, subscribe_process, unsubscribe_with, unsubscribe_process,
}

-- The predicate of the state that a call returns, if it does.
abbrev pub InState : (State → Type 0) → Option State → Type 0
InState P none = Unit
InState P (some s) = P s

abbrev pub InAfter {ℓ} : {A : Type ℓ} → (State → Type 0) → Option (A × State) → Type 0
InAfter P none = Unit
InAfter P (some (a, s)) = P s

-- What the predicate has to satisfy.
pub record Kept (P : State → Type 0) : Type 0 where
  pub by_ctxs : (f : ℕ → Option CtxMq) (s : State) → P s → P (record s { ctxs = f })
  pub by_wake : (q : Bytes) (p : ℕ) (m : Msg) (s : State) → P s → InState P (wake q p m s)

module _ (P : State → Type 0) where
  pub with_nil-Keeps : (o : Option State) → InState P o → InAfter P (with_nil o)
  with_nil-Keeps none h = tt
  with_nil-Keeps (some s) h = h

  done_with-Keeps : (o : Option State) → InState P o → InAfter P (done_with o)
  done_with-Keeps none h = tt
  done_with-Keeps (some s) h = h

  unless_failed-Keeps :
      (o : Option (Bool × State)) (next : State → Option (Bool × State))
      → InAfter P o
      → ((s : State) → P s → InAfter P (next s))
      → InAfter P (unless_failed o next)
  unless_failed-Keeps none next h k = tt
  unless_failed-Keeps (some (false, s)) next h k = h
  unless_failed-Keeps (some (true, s)) next h k = k s h

  answer_nil-Keeps :
      (g : Grants) (o : Option (Bool × State)) → InAfter P o → InAfter P (answer_nil g o)
  answer_nil-Keeps g none h = tt
  answer_nil-Keeps g (some (false, s)) h = h
  answer_nil-Keeps g (some (true, s)) h = elim (Bool-cases (g nil_site)) [
    | inl y ↦ rw y h
    | inr n ↦ rw n h
  ]

module _ (P : State → Type 0) (kept : Kept P) where
  to_subscriber-Keeps :
      (g : Grants) (c : ℕ) (q : Bytes) (m : Msg) (s : State) (l : CtxMq) (ms : List Msg)
      (p : Option ℕ)
      → P s
      → InAfter P (to_subscriber g c q m s l ms p)
  to_subscriber-Keeps g c q m s l ms none h = kept.by_ctxs _ s h
  to_subscriber-Keeps g c q m s l ms (some p) h = elim (Option-cases (s.objects p)) [
    | inl e ↦ rw e tt
    | inr (w, e) ↦ elim (Bool-cases (g value_site)) [
      | inr n ↦ rw (e, n) (kept.by_ctxs _ s h)
      | inl y ↦ rw (e, y) (done_with-Keeps P _ (kept.by_wake w.mq p m s h))
    ]
  ]

  broadcast_ctx-Keeps :
      (g : Grants) (c : ℕ) (q : Bytes) (v : Value) (s : State)
      → P s
      → InAfter P (broadcast_ctx g c q v s)
  unfolding broadcast_ctx
  broadcast_ctx-Keeps g c q v s h = elim (Option-cases (s.ctxs c)) [
    | inl e ↦ rw e tt
    | inr (l, e) ↦ elim (Option-cases (l.topics q)) [
      | inl f ↦ rw (e, f) h
      | inr (ms, f) ↦ elim (Option-cases (msg_new (g msg_site) v)) [
        | inl n ↦ rw (e, f, n) h
        | inr (m, n) ↦ rw (e, f, n) (to_subscriber-Keeps g c q m s l ms l.mq_wait h)
      ]
    ]
  ]

  broadcast_to-Keeps :
      (g : ℕ → Grants) (cs : List ℕ) (q : Bytes) (v : Value) (s : State)
      → P s
      → InAfter P (broadcast_to g cs q v s)
  unfolding broadcast_to
  broadcast_to-Keeps g [] q v s h = h
  broadcast_to-Keeps g (c ∷ cs) q v s h =
      unless_failed-Keeps P _ _ (broadcast_ctx-Keeps (g c) c q v s h)
        (λ s' k. broadcast_to-Keeps g cs q v s' k)

  -- `send` keeps what sending to a queue keeps.
  pub send_process-Keeps :
      (g : Grants) (gs : ℕ → Grants) (running waiting : List ℕ) (env : Env) (s : State)
      → ((q : Bytes) (v : Value) → InAfter P (mq_msg_set g q v s))
      → P s
      → InAfter P (send_process g gs running waiting env s)
  unfolding send_process mq_msg_broadcast
  send_process-Keeps g gs running waiting env s set h = go (send_args env)
    where
      go : (r : Result SendArgs) → InAfter P (send_with g gs running waiting s r)
      go (err e) = h
      go fault = tt
      go (ok r) = elim (Bool-cases (copied g r.msg)) [
        | inr n ↦ rw n h
        | inl y ↦ elim (Bool-cases r.as_topic) [
          | inl t ↦
              rw (y, t)
                (answer_nil-Keeps P g _
                  (broadcast_to-Keeps gs (running ++ waiting) r.qname r.msg s h))
          | inr t ↦ rw (y, t) (set r.qname r.msg)
        ]
      ]

  subscribe_new-Keeps :
      (g : Grants) (c : ℕ) (q : Bytes) (s : State) (l : CtxMq) (o : Option (List Msg))
      → P s
      → InAfter P (subscribe_new g c q s l o)
  subscribe_new-Keeps g c q s l (some ms) h = h
  subscribe_new-Keeps g c q s l none h = elim (Bool-cases (g topic_site)) [
    | inr n ↦ rw n h
    | inl y ↦ elim (Bool-cases (g topic_node_site)) [
      | inl z ↦ rw (y, z) (kept.by_ctxs _ s h)
      | inr n ↦ rw (y, n) h
    ]
  ]

  pub subscribe_process-Keeps :
      (g : Grants) (c : ℕ) (env : Env) (s : State)
      → P s
      → InAfter P (subscribe_process g c env s) × InAfter P (unsubscribe_process g c env s)
  unfolding subscribe_process unsubscribe_process
  subscribe_process-Keeps g c env s h = go (qname_arg env)
    where
      go :
          (r : Result Bytes)
          → InAfter P (subscribe_with g c s r) × InAfter P (unsubscribe_with g c s r)
      go (err e) = (h, h)
      go fault = (tt, tt)
      go (ok q) = elim (Bool-cases (g nil_site)) [
        | inr n ↦ rw n (h, h)
        | inl y ↦ elim (Option-cases (s.ctxs c)) [
          | inl e ↦ rw (y, e) (tt, tt)
          | inr (l, e) ↦
              rw (y, e) (subscribe_new-Keeps g c q s l (l.topics q) h, kept.by_ctxs _ s h)
        ]
      ]
