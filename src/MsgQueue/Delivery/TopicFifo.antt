-- ===== src/MsgQueue/Delivery/TopicFifo.antt =====
-- lib_src/msgqueue/mln_lang_msgqueue_impl.c: broadcasts and the `recv` of a
-- subscriber together, as operations on the values that its topic holds.
use melang.Base.{
  ℕ, zero, suc, ◌≡◌, refl, sym, ◌∙◌, true, List, [], ◌∷◌, ◌++◌, Option, some, inl, inr,
  Option-cases, bytes_eq_refl, arith, All, length, map, count, lt→ltb, ◌≤◌, ◌<◌, ◌>>=◌,
}
use mathlib.Core.List.{map-append, append-nil, append_assoc}
use melang.Script.{Bytes, Value, Env, ok}
use melang.MsgQueue.{Msg, State, Grants, value_site, Answer, value, msg_new, to_value}
use melang.MsgQueue.Args.{RecvArgs, recv_args}
use melang.MsgQueue.Send.{mq_msg_broadcast, set_topics}
use melang.MsgQueue.Recv.{mq_msg_subscribe_get, recv_process}
use melang.MsgQueue.Invariant.{topic_of}
use melang.MsgQueue.Delivery.{Granted}
use melang.MsgQueue.Delivery.Fifo.{Sendable, to_value-msg_new, answers}
use melang.MsgQueue.Delivery.Topic.{IsIdle, mq_msg_broadcast-reaches}

-- The context subscribes to the topic, which holds these values.
abbrev pub Holds : State → ℕ → Bytes → List Value → Type 0
Holds s c q xs = (ms : List Msg) × (topic_of q (s.ctxs c) ≡ some ms) × (map to_value ms ≡ xs)

-- All of a list broadcast, and so many values received by one context.
abbrev pub broadcast_all :
    Grants → (ℕ → Grants) → List ℕ → List ℕ → Bytes → List Value → State → Option State
broadcast_all g gs running waiting q [] s = some s
broadcast_all g gs running waiting q (x ∷ xs) s =
    mq_msg_broadcast g gs running waiting q x s >>= λ (a, s').
    broadcast_all g gs running waiting q xs s'

abbrev pub recv_times : Grants → ℕ → ℕ → Env → ℕ → State → Option (List Answer × State)
recv_times g c now env zero s = some ([], s)
recv_times g c now env (suc n) s = answers (recv_process g c now env s) (recv_times g c now env n)

-- `recv` takes the first message of the topic, whatever the queue of that name holds.
recv_first :
    (g : Grants) (c now : ℕ) (env : Env) (a : RecvArgs) (m : Msg) (ms : List Msg) (s : State)
    → Granted g
    → recv_args env ≡ ok a
    → topic_of a.qname (s.ctxs c) ≡ some (m ∷ ms)
    → (s' : State) × (recv_process g c now env s ≡ some (value (to_value m), s'))
      × (topic_of a.qname (s'.ctxs c) ≡ some ms)
unfolding recv_process mq_msg_subscribe_get
recv_first g c now env a m ms s granted args first = elim (Option-cases (s.ctxs c)) [
  | inl e ↦ absurd (ground (arith, first))
  | inr (l, e) ↦
      let at : l.topics a.qname ≡ some (m ∷ ms) = rw e at first in
      (
        set_topics c l a.qname ms s,
        rw (args, e, at, granted value_site) refl,
        ground (arith, bytes_eq_refl a.qname),
      )
]

recv_times-Holds :
    (g : Grants) (c now : ℕ) (env : Env) (a : RecvArgs) (ms : List Msg) (s : State)
    → Granted g
    → recv_args env ≡ ok a
    → topic_of a.qname (s.ctxs c) ≡ some ms
    → (s' : State) × (recv_times g c now env (length (map to_value ms)) s
        ≡ some (map value (map to_value ms), s'))
      × (topic_of a.qname (s'.ctxs c) ≡ some [])
recv_times-Holds g c now env a [] s granted args at = (s, refl, at)
recv_times-Holds g c now env a (m ∷ ms) s granted args at =
    let (s1, run, at1) = recv_first g c now env a m ms s granted args at in
    let (s2, runs, at2) = recv_times-Holds g c now env a ms s1 granted args at1 in
    (s2, rw (run, runs) refl, at2)

module _ (g : Grants) (gs : ℕ → Grants) (running waiting : List ℕ) (granted : Granted g)
    (all_granted : (c : ℕ) → Granted (gs c)) (once : (d : ℕ) → count d (running ++ waiting) ≤ 1)
    (c : ℕ) (listed : 0 < count c (running ++ waiting)) where
  broadcast-Holds :
      (q : Bytes) (x : Value) (m : Msg) (ms : List Msg) (s : State)
      → msg_new true x ≡ some m
      → All (IsIdle s) (running ++ waiting)
      → topic_of q (s.ctxs c) ≡ some ms
      → (s' : State) × (mq_msg_broadcast g gs running waiting q x s ≡ some (value Value.nil, s'))
        × (topic_of q (s'.ctxs c) ≡ some (ms ++ m ∷ []))
        × All (IsIdle s') (running ++ waiting)
  broadcast-Holds q x m ms s new idle at =
      let (s', run, reaches, idle') =
        mq_msg_broadcast-reaches g gs running waiting q x m s granted all_granted new idle once in
      (s', run, reaches c ∙ rw (lt→ltb 0 _ listed, at) refl, idle')

  broadcast_all-Holds :
      (q : Bytes) (xs : List Value) (ms : List Msg) (s : State)
      → All Sendable xs
      → All (IsIdle s) (running ++ waiting)
      → topic_of q (s.ctxs c) ≡ some ms
      → (s' : State) × (broadcast_all g gs running waiting q xs s ≡ some s')
        × Holds s' c q (map to_value ms ++ xs)
  broadcast_all-Holds q [] ms s hs idle at = (s, refl, (ms, at, sym (append-nil _)))
  broadcast_all-Holds q (x ∷ xs) ms s ((m, new), hs) idle at =
      let (s1, run, at1, idle1) = broadcast-Holds q x m ms s new idle at in
      let (s2, runs, (ms2, at2, same)) = broadcast_all-Holds q xs (ms ++ m ∷ []) s1 hs idle1 at1 in
      (
        s2,
        rw run runs,
        (
          ms2,
          at2,
          same
              ∙ rw (map-append, to_value-msg_new x m new)
                  (append_assoc (map to_value ms) (x ∷ []) xs),
        ),
      )

  -- First in, first out for each subscriber: where memory is granted and none of the listed
  -- contexts waits, each listed once, values of the four types that are broadcast to a topic are
  -- received by a listed subscriber in the order in which they were sent, behind those that its
  -- topic held, and its topic is then empty.
  pub recv_times-broadcast_all :
      (g' : Grants) (now : ℕ) (env : Env) (a : RecvArgs) (xs ys : List Value) (s : State)
      → Granted g'
      → recv_args env ≡ ok a
      → All Sendable xs
      → All (IsIdle s) (running ++ waiting)
      → Holds s c a.qname ys
      → (s1 s2 : State) × (broadcast_all g gs running waiting a.qname xs s ≡ some s1)
        × (recv_times g' c now env (length (ys ++ xs)) s1 ≡ some (map value (ys ++ xs), s2))
        × Holds s2 c a.qname []
  recv_times-broadcast_all g' now env a xs ys s granted' args hs idle (ms, at, held) =
      let (s1, sent, (ms1, at1, held1)) = broadcast_all-Holds a.qname xs ms s hs idle at in
      let (s2, run, at2) = recv_times-Holds g' c now env a ms1 s1 granted' args at1 in
      let same : map to_value ms1 ≡ ys ++ xs = rw held at held1 in
      (s1, s2, sent, rw same at run, ([], at2, refl))
