-- ===== src/MsgQueue/Delivery.antt =====
-- lib_src/msgqueue/mln_lang_msgqueue_impl.c: who gets a message, and in which order.
pub mod Fifo
pub mod Topic
pub mod TopicFifo
use melang.Base.{
  ℕ, ◌+◌, ◌≡◌, refl, sym, ap, ◌∙◌, Bool, true, false, List, [], ◌∷◌, ◌++◌, Option, none, some, inl,
  inr, ◌⊎◌, Bool-cases, Option-cases, bytes_eq_refl, bytes_eq, arith, count, erase, if◌then◌else◌,
  ◌<◌,
}
use melang.Script.{Bytes, Value}
use melang.MsgQueue.{
  Msg, Mq, Wait, CtxMq, State, Event, set_ret_var, continues, suspend, Site, Grants, msg_site,
  mq_site, mq_node_site, nil_site, value_site, wait_site, Answer, value, failed, msg_new, to_value,
  put_mq, delete_mq, update, update_at, fetch_or_new, mq_new, log,
}
use melang.MsgQueue.Send.{mq_msg_set, enqueue, hand_out, with_nil, broadcast_ctx, wake}
use melang.MsgQueue.Recv.{mq_msg_get, get_from, take_or_wait, mq_msg_subscribe_get, got}
use melang.MsgQueue.Topics.{ctx_mq_free}
use melang.MsgQueue.Invariant.{
  Inv, waits_of, msgs_of, wake-Woken, put_mq-Inv, Fetched, fetch_or_new-Found, is_some,
}

-- Every request is granted.
abbrev pub Granted : Grants → Type 0
Granted g = (k : Site) → g k ≡ true

Granted-Fetched :
    (g : Grants) (q : Bytes) (s : State)
    → Inv s
    → Granted g
    → (mq : Mq) × (s0 : State) × (fetch_or_new g q s ≡ some (mq, s0)) × Fetched q s s0 mq
Granted-Fetched g q s v ok = elim (fetch_or_new-Found g q s v) [
  | inl (_, inl refused) ↦ absurd (ground (arith, ok mq_site))
  | inl (_, inr refused) ↦ absurd (ground (arith, ok mq_node_site))
  | inr found ↦ found
]

-- From a state with the invariant and where memory is granted, a message sent to a queue at which
-- nobody waits stands behind the messages that are there, and `send` returns nil; no other queue
-- changes, and no context is woken.
pub mq_msg_set-queues :
    (g : Grants) (q : Bytes) (x : Value) (m : Msg) (s : State)
    → Inv s
    → Granted g
    → msg_new true x ≡ some m
    → waits_of (s.mq_set q) ≡ []
    → (s' : State) × (mq_msg_set g q x s ≡ some (value Value.nil, s'))
      × ((r : Bytes)
          → s'.mq_set r ≡ (
              if bytes_eq q r
              then some (record { msgs = msgs_of (s.mq_set q) ++ m ∷ []; waits = [] })
              else s.mq_set r))
      × (s'.events ≡ s.events)
unfolding mq_msg_set enqueue
mq_msg_set-queues g q x m s v ok new idle =
    let (mq, s0, found, f) = Granted-Fetched g q s v ok in
    (
      put_mq q (record { msgs = mq.msgs ++ m ∷ []; waits = mq.waits }) s0,
      ground (arith, ok msg_site, ok nil_site, new, found, f.same_waits),
      (λ r. elim (Bool-cases (bytes_eq q r)) [
        | inl same ↦ ground (arith, f.same_waits, f.same_msgs, same)
        | inr other ↦ ground (arith, f.elsewhere r other)
      ]),
      f.same_events,
    )

-- From a state with the invariant and where memory is granted, a message sent to a queue with
-- waiters stands behind those there, and the first of them goes to the waiter that came first: its
-- context gets the value and goes on, it leaves the queue, and its wait object is freed.
pub mq_msg_set-wakes :
    (g : Grants) (q : Bytes) (x : Value) (m n : Msg) (ms : List Msg) (p : ℕ) (ps : List ℕ)
    (s : State)
    → Inv s
    → Granted g
    → msg_new true x ≡ some m
    → waits_of (s.mq_set q) ≡ p ∷ ps
    → msgs_of (s.mq_set q) ++ m ∷ [] ≡ n ∷ ms
    → (s' : State) × (mq_msg_set g q x s ≡ some (value Value.nil, s'))
      × (s'.mq_set q ≡ some (record { msgs = ms; waits = ps }))
      × (s'.events ≡ (s.events ++ set_ret_var p (to_value n) ∷ []) ++ continues p ∷ [])
      × (s'.objects p ≡ none)
unfolding mq_msg_set enqueue
mq_msg_set-wakes g q x m n ms p ps s v ok new waits first =
    let (mq, s0, found, f) = Granted-Fetched g q s v ok in
    let ew : mq.waits ≡ p ∷ ps = f.same_waits ∙ waits in
    let em : mq.msgs ++ m ∷ [] ≡ n ∷ ms = rw f.same_msgs first in
    let s1 = put_mq q (record mq { msgs = mq.msgs ++ m ∷ [] }) s0 in
    let v1 = put_mq-Inv q (record mq { msgs = mq.msgs ++ m ∷ [] }) s0 f.inv (rw f.there refl) in
    let rest : Mq = record { msgs = ms; waits = p ∷ ps } in
    let v2 = put_mq-Inv q rest s1 v1 (rw (bytes_eq_refl q) (sym ew)) in
    let (s', woken) =
      wake-Woken p q n rest (put_mq q rest s1) v2 (rw (bytes_eq_refl q) refl) (ground arith) in
    (
      s',
      ground (arith, ok msg_site, ok nil_site, ok value_site, new, found, ew, em, woken.run),
      ground (arith, woken.queue, bytes_eq_refl q),
      rw f.same_events at woken.told,
      rw woken.freed (ground arith),
    )
