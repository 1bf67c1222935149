-- ===== src/MsgQueue/Armed.antt =====
-- lib_src/msgqueue/mln_lang_msgqueue_impl.c: the timer and the heap of timeouts.
pub mod Recv
pub mod Reached
use melang.MsgQueue.Keeps.{InState, InAfter, Kept, with_nil-Keeps, send_process-Keeps}
use melang.Base.{
  ℕ, ◌+◌, ◌<◌, ◌≡◌, refl, Bool, true, false, List, [], ◌∷◌, ◌++◌, Option, none, some, ◌⊎◌, inl, inr,
  Bool-cases, Option-cases, erase, arith, if◌then◌else◌,
}
use melang.Script.{Bytes, Value, Env, Result, ok, err, fault}
use melang.MsgQueue.{
  Msg, Mq, Wait, CtxMq, State, Grants, Answer, msg_site, nil_site, value_site, mq_site,
  mq_node_site, update_at, put_mq, msg_new, ctx_mq_remove, ctx_mq_join, wait_free, wait_chain_del,
  fetch_or_new, found_or_new,
}
use melang.MsgQueue.Args.{SendArgs, send_args}
use melang.MsgQueue.Send.{
  wake, hand_out, with_nil, enqueue, send_msg, mq_msg_set, set_topics, wake_subscriber,
  to_subscriber, add_to_topic, to_topic, to_context, done_with, broadcast_ctx, broadcast_to,
  unless_failed, answer_nil, mq_msg_broadcast, copied, send_with, send_process,
}

-- The heap is empty, or a timer is set.
abbrev pub Armed : State → Type 0
Armed s = (s.mq_timeout ≡ []) ⊎ (0 < s.timers)

-- The same of the state that a call returns, if it does.
abbrev pub ArmedState : Option State → Type 0
ArmedState = InState Armed

abbrev pub ArmedAfter {ℓ} : {A : Type ℓ} → Option (A × State) → Type 0
ArmedAfter = InAfter Armed

-- A wait object that is freed leaves the heap with one node less, or as it is.
pub left-Armed :
    (p : ℕ) (in_heap : Bool) (s : State)
    → Armed s
    → Armed (record s { mq_timeout = if in_heap then erase p s.mq_timeout else s.mq_timeout })
left-Armed p in_heap s (inr set) = inr set
left-Armed p true s (inl empty) = inl (rw empty refl)
left-Armed p false s (inl empty) = inl empty

wait_free-Armed : (p : ℕ) (s : State) → Armed s → ArmedState (wait_free p s)
unfolding wait_free
wait_free-Armed p s a = elim (Option-cases (s.objects p)) [
  | inl e ↦ rw e tt
  | inr (w, e) ↦ rw e (left-Armed p w.in_heap s a)
]

wake-Armed : (q : Bytes) (p : ℕ) (m : Msg) (s : State) → Armed s → ArmedState (wake q p m s)
unfolding wake ctx_mq_remove wait_chain_del
wake-Armed q p m s a = elim (Option-cases (s.ctxs p)) [
  | inl e ↦ rw e tt
  | inr (l, e) ↦ elim (Option-cases (s.mq_set q)) [
    | inl f ↦ rw (e, f) tt
    | inr (mq, f) ↦ rw (e, f) (wait_free-Armed p _ a)
  ]
]

hand_out-Armed :
    (g : Grants) (q : Bytes) (s : State) (ms : List Msg) (ps : List ℕ)
    → Armed s
    → ArmedState (hand_out g q s ms ps)
hand_out-Armed g q s ms [] a = a
hand_out-Armed g q s [] (p ∷ ps) a = tt
hand_out-Armed g q s (m ∷ ms) (p ∷ ps) a = elim (Bool-cases (g value_site)) [
  | inl y ↦ rw y (wake-Armed q p m (put_mq q (record { msgs = ms; waits = p ∷ ps }) s) a)
  | inr n ↦ rw n a
]

pub found_or_new-Armed :
    (g : Grants) (q : Bytes) (s : State) (o : Option Mq)
    → Armed s
    → ArmedAfter (found_or_new g q s o)
found_or_new-Armed g q s (some m) a = a
found_or_new-Armed g q s none a = elim (Bool-cases (g mq_site)) [
  | inr n ↦ rw n tt
  | inl y ↦ elim (Bool-cases (g mq_node_site)) [ inr n ↦ rw (y, n) tt | inl z ↦ rw (y, z) a ]
]

enqueue-Armed :
    (g : Grants) (q : Bytes) (m : Msg) (o : Option (Mq × State)) (s : State)
    → Armed s
    → ArmedAfter o
    → ArmedAfter (enqueue g q m o s)
unfolding enqueue
enqueue-Armed g q m none s a b = a
enqueue-Armed g q m (some (mq, s0)) s a b = elim (Bool-cases (g nil_site)) [
  | inr n ↦ rw n b
  | inl y ↦ rw y (
      with_nil-Keeps Armed _ (
        hand_out-Armed g q (put_mq q (record mq { msgs = mq.msgs ++ m ∷ [] }) s0)
          (mq.msgs ++ m ∷ []) mq.waits b))
]

mq_msg_set-Armed :
    (g : Grants) (q : Bytes) (v : Value) (s : State) → Armed s → ArmedAfter (mq_msg_set g q v s)
unfolding mq_msg_set fetch_or_new
mq_msg_set-Armed g q v s a = elim (Option-cases (msg_new (g msg_site) v)) [
  | inl e ↦ rw e a
  | inr (m, e) ↦ rw e (enqueue-Armed g q m _ s a (found_or_new-Armed g q s (s.mq_set q) a))
]

pub Armed-Kept : Kept Armed
Armed-Kept = record { by_ctxs = λ f s h. h; by_wake = wake-Armed }

pub send_process-Armed :
    (g : Grants) (gs : ℕ → Grants) (running waiting : List ℕ) (env : Env) (s : State)
    → Armed s
    → ArmedAfter (send_process g gs running waiting env s)
send_process-Armed g gs running waiting env s h =
    send_process-Keeps Armed Armed-Kept g gs running waiting env s
      (λ q v. mq_msg_set-Armed g q v s h) h
