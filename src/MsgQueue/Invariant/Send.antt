-- ===== src/MsgQueue/Invariant/Send.antt =====
-- lib_src/msgqueue/mln_lang_msgqueue_impl.c: `send` follows no dangling pointer and keeps the
-- invariant, to a queue and to a topic.
use melang.Base.{
  ℕ, ◌<◌, ◌≡◌, ◌≢◌, refl, ◌∙◌, Bool, true, false, List, [], ◌∷◌, ◌++◌, Option, none, some, inl, inr,
  Bool-cases, Option-cases, bytes_eq_refl, arith, count, All,
}
use melang.Script.{Bytes, Value}
use melang.MsgQueue.{
  Msg, Mq, Wait, CtxMq, State, Grants, nil_site, value_site, msg_site, Answer, put_mq, msg_new,
}
use melang.MsgQueue.Send.{
  hand_out, with_nil, enqueue, mq_msg_set, broadcast_ctx, broadcast_to, mq_msg_broadcast, to_topic,
  to_subscriber, set_topics, add_to_topic, unless_failed, answer_nil,
}
use melang.MsgQueue.Invariant.{
  Inv, wake-Woken, is_some, put_mq-Inv, topics-Inv, Fetched, fetch_or_new-Found,
}

-- The call returns, and the invariant holds in the state that it leaves.
abbrev pub SafeState : Option State → Type 0
SafeState none = ⊥
SafeState (some s) = Inv s

abbrev pub Safe : Option (Answer × State) → Type 0
Safe none = ⊥
Safe (some (a, s)) = Inv s

-- And no context has lost or got its "mq" resource.
abbrev pub SafeSent : State → Option (Bool × State) → Type 0
SafeSent s none = ⊥
SafeSent s (some (b, s')) = Inv s' × ((c : ℕ) → is_some (s'.ctxs c) ≡ is_some (s.ctxs c))

hand_out-Safe :
    (g : Grants) (q : Bytes) (ms : List Msg) (ps : List ℕ) (s : State)
    → Inv s
    → s.mq_set q ≡ some (record { msgs = ms; waits = ps })
    → ms ≢ []
    → SafeState (hand_out g q s ms ps)
hand_out-Safe g q ms [] s v e h = v
hand_out-Safe g q [] (p ∷ ps) s v e h = absurd (h refl)
hand_out-Safe g q (m ∷ ms) (p ∷ ps) s v e h = elim (Bool-cases (g value_site)) [
  | inr f ↦ rw f v
  | inl a ↦
      let rest : Mq = record { msgs = ms; waits = p ∷ ps } in
      let v1 = put_mq-Inv q rest s v (rw e refl) in
      let (s', woken) =
        wake-Woken p q m rest (put_mq q rest s) v1 (rw (bytes_eq_refl q) refl) (ground arith) in
      rw (a, woken.run) woken.inv
]

with_nil-Safe : (r : Option State) → SafeState r → Safe (with_nil r)
with_nil-Safe none v = v
with_nil-Safe (some s) v = v

snoc_ne : (ms : List Msg) (m : Msg) → (ms ++ m ∷ []) ≢ []
snoc_ne [] m e = cc
snoc_ne (n ∷ ms) m e = cc

enqueue-Safe :
    (g : Grants) (q : Bytes) (m : Msg) (mq : Mq) (s s0 : State)
    → Fetched q s s0 mq
    → Safe (enqueue g q m (some (mq, s0)) s)
unfolding enqueue
enqueue-Safe g q m mq s s0 f =
    let ms = mq.msgs ++ m ∷ [] in
    let s1 = put_mq q (record mq { msgs = ms }) s0 in
    let v1 = put_mq-Inv q (record mq { msgs = ms }) s0 f.inv (rw f.there refl) in
    elim (Bool-cases (g nil_site)) [
      | inr no_nil ↦ rw no_nil v1
      | inl nil ↦ rw nil (
          with_nil-Safe (hand_out g q s1 ms mq.waits)
            (hand_out-Safe g q ms mq.waits s1 v1 (rw (bytes_eq_refl q) refl) (snoc_ne mq.msgs m)))
    ]

-- Sending to a queue never follows a dangling pointer, whatever is sent and whichever requests for
-- memory fail, and keeps the invariant.
pub mq_msg_set-Safe :
    (g : Grants) (q : Bytes) (v : Value) (s : State) → Inv s → Safe (mq_msg_set g q v s)
unfolding mq_msg_set
mq_msg_set-Safe g q v s i = elim (Option-cases (msg_new (g msg_site) v)) [
  | inl e ↦ rw e i
  | inr (m, e) ↦ elim (fetch_or_new-Found g q s i) [
    | inl (no_queue, _) ↦ rw (e, no_queue) (unfold enqueue in i)
    | inr (mq, s0, found, f) ↦ rw (e, found) (enqueue-Safe g q m mq s s0 f)
  ]
]

-- A wait object that its context points at stands in the chain of its queue.
pub pointed :
    (c p : ℕ) (l : CtxMq) (s : State)
    → Inv s
    → s.ctxs c ≡ some l
    → l.mq_wait ≡ some p
    → (p ≡ c)
      × ((w : Wait) × (mq : Mq) × (s.objects c ≡ some w)
          × (s.mq_set w.mq ≡ some mq)
          × (0 < count c mq.waits))
pointed c p l s v el ep = elim (Option-cases (s.objects c)) [
  | inl e ↦ absurd (ground (arith, v.joined c))
  | inr (w, e) ↦ elim (Option-cases (s.mq_set w.mq)) [
    | inl f ↦ absurd (ground (arith, v.chained w.mq c, bytes_eq_refl w.mq))
    | inr (mq, f) ↦ (
      ground (arith, v.joined c),
      (w, mq, e, f, ground (arith, v.chained w.mq c, bytes_eq_refl w.mq)),
    )
  ]
]

-- The message is kept in the topic.
kept-Safe :
    (c : ℕ) (q : Bytes) (ms : List Msg) (l : CtxMq) (s : State) (b : Bool)
    → Inv s
    → s.ctxs c ≡ some l
    → SafeSent s (some (b, set_topics c l q ms s))
kept-Safe c q ms l s b v e = (topics-Inv c l _ s v e, λ d. ground (arith, e))

to_subscriber-Safe :
    (g : Grants) (c : ℕ) (q : Bytes) (m : Msg) (l : CtxMq) (ms : List Msg) (o : Option ℕ)
    (s : State)
    → Inv s
    → s.ctxs c ≡ some l
    → l.mq_wait ≡ o
    → SafeSent s (to_subscriber g c q m s l ms o)
to_subscriber-Safe g c q m l ms none s v e idle = kept-Safe c q (ms ++ m ∷ []) l s true v e
to_subscriber-Safe g c q m l ms (some p) s v e waits =
    let (same, (w, mq, eo, em, h)) = pointed c p l s v e waits in
    let (s', woken) = wake-Woken c w.mq m mq s v em h in
    elim (Bool-cases (g value_site)) [
      | inr f ↦ rw (same, eo, f) (kept-Safe c q (ms ++ m ∷ []) l s false v e)
      | inl a ↦ rw (same, eo, a, woken.run) (woken.inv, woken.registered)
    ]

add_to_topic-Safe :
    (g : Grants) (c : ℕ) (q : Bytes) (l : CtxMq) (ms : List Msg) (o : Option Msg) (s : State)
    → Inv s
    → s.ctxs c ≡ some l
    → SafeSent s (add_to_topic g c q s l ms o)
add_to_topic-Safe g c q l ms none s v e = (v, λ d. refl)
add_to_topic-Safe g c q l ms (some m) s v e = to_subscriber-Safe g c q m l ms l.mq_wait s v e refl

to_topic-Safe :
    (g : Grants) (c : ℕ) (q : Bytes) (x : Value) (l : CtxMq) (t : Option (List Msg)) (s : State)
    → Inv s
    → s.ctxs c ≡ some l
    → SafeSent s (to_topic g c q x s l t)
to_topic-Safe g c q x l none s v e = (v, λ d. refl)
to_topic-Safe g c q x l (some ms) s v e =
    add_to_topic-Safe g c q l ms (msg_new (g msg_site) x) s v e

broadcast_ctx-Safe :
    (g : Grants) (c : ℕ) (q : Bytes) (x : Value) (s : State)
    → Inv s
    → is_some (s.ctxs c) ≡ true
    → SafeSent s (broadcast_ctx g c q x s)
unfolding broadcast_ctx
broadcast_ctx-Safe g c q x s v r = elim (Option-cases (s.ctxs c)) [
  | inl e ↦ absurd (ground (arith, r))
  | inr (l, e) ↦ rw e (to_topic-Safe g c q x l (l.topics q) s v e)
]

-- Every context of the list has imported the library.
abbrev pub AllRegistered : State → List ℕ → Type 0
AllRegistered s = All λ c. is_some (s.ctxs c) ≡ true

AllRegistered-step :
    (cs : List ℕ) (s s' : State)
    → ((c : ℕ) → is_some (s'.ctxs c) ≡ is_some (s.ctxs c))
    → AllRegistered s cs
    → AllRegistered s' cs
AllRegistered-step [] s s' h r = tt
AllRegistered-step (c ∷ cs) s s' h (r, rs) = (rw (h c) r, AllRegistered-step cs s s' h rs)

SafeSent-trans :
    (s s' : State) (o : Option (Bool × State))
    → ((c : ℕ) → is_some (s'.ctxs c) ≡ is_some (s.ctxs c))
    → SafeSent s' o
    → SafeSent s o
SafeSent-trans s s' none h v = v
SafeSent-trans s s' (some (b, t)) h (v, k) = (v, λ c. k c ∙ h c)

unless_failed-Safe :
    (s : State) (o : Option (Bool × State)) (next : State → Option (Bool × State))
    → SafeSent s o
    → ((s' : State)
        → ((c : ℕ) → is_some (s'.ctxs c) ≡ is_some (s.ctxs c))
        → Inv s'
        → SafeSent s' (next s'))
    → SafeSent s (unless_failed o next)
unless_failed-Safe s none next safe rest = safe
unless_failed-Safe s (some (false, s')) next safe rest = safe
unless_failed-Safe s (some (true, s')) next (v', h) rest =
    SafeSent-trans s s' (next s') h (rest s' h v')

broadcast_to-Safe :
    (g : ℕ → Grants) (cs : List ℕ) (q : Bytes) (x : Value) (s : State)
    → Inv s
    → AllRegistered s cs
    → SafeSent s (broadcast_to g cs q x s)
unfolding broadcast_to
broadcast_to-Safe g [] q x s v r = (v, λ d. refl)
broadcast_to-Safe g (c ∷ cs) q x s v (r, rs) =
    unless_failed-Safe s (broadcast_ctx (g c) c q x s) _ (broadcast_ctx-Safe (g c) c q x s v r)
      (λ s' h v'. broadcast_to-Safe g cs q x s' v' (AllRegistered-step cs s s' h rs))

answer_nil-Safe :
    (g : Grants) (s : State) (o : Option (Bool × State)) → SafeSent s o → Safe (answer_nil g o)
answer_nil-Safe g s none safe = safe
answer_nil-Safe g s (some (false, s')) (v, _) = v
answer_nil-Safe g s (some (true, s')) (v, _) = elim (Bool-cases (g nil_site)) [
  | inl a ↦ rw a v
  | inr f ↦ rw f v
]

-- A broadcast to contexts that have all imported the library never follows a dangling pointer,
-- whichever requests for memory fail, and keeps the invariant.
pub mq_msg_broadcast-Safe :
    (g : Grants) (gs : ℕ → Grants) (running waiting : List ℕ) (q : Bytes) (x : Value) (s : State)
    → Inv s
    → AllRegistered s (running ++ waiting)
    → Safe (mq_msg_broadcast g gs running waiting q x s)
unfolding mq_msg_broadcast
mq_msg_broadcast-Safe g gs running waiting q x s v r =
    answer_nil-Safe g s (broadcast_to gs (running ++ waiting) q x s)
      (broadcast_to-Safe gs (running ++ waiting) q x s v r)
