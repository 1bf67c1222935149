-- ===== src/MsgQueue/Invariant.antt =====
-- lib_src/msgqueue/mln_lang_msgqueue_impl.c: how the chains of waiters, the heap of timeouts, the
-- wait objects and the contexts point at one another, and the steps by which they change.
pub mod Send
pub mod Recv
pub mod Timeout
pub mod Process
use melang.Base.{
  ℕ, zero, suc, ◌+◌, ◌≡◌, refl, subst, Bool, true, false, List, [], ◌∷◌, ◌++◌, Option, none, some,
  ◌==◌, bytes_eq, bytes_eq→eq, bytes_eq_refl, ◌<◌, inl, inr, ◌⊎◌, Option-cases, Bool-cases,
  if◌then◌else◌, ◌>>=◌, count, erase, count-append, count-erase, arith,
}
use melang.Script.{Bytes}
use melang.MsgQueue.{
  Msg, Mq, Wait, CtxMq, State, Event, set_ret_var, continues, update, update_at, log, to_value,
  ctx_mq_remove, ctx_mq_join, wait_free, wait_chain_del, put_mq, delete_mq, mq_new, Grants,
  fetch_or_new, found_or_new, mq_site, mq_node_site,
}
use melang.MsgQueue.Send.{wake}

abbrev pub waits_of : Option Mq → List ℕ
waits_of none = []
waits_of (some m) = m.waits

abbrev pub msgs_of : Option Mq → List Msg
msgs_of none = []
msgs_of (some m) = m.msgs

-- 1 where the wait object waits at the queue, and 1 where it is in the heap.
abbrev pub waits_at : Bytes → Option Wait → ℕ
waits_at q none = 0
waits_at q (some w) = if bytes_eq w.mq q then 1 else 0

abbrev pub heap_nodes : Option Wait → ℕ
heap_nodes none = 0
heap_nodes (some w) = if w.in_heap then 1 else 0

abbrev pub pointer_of : Option CtxMq → Option ℕ
pointer_of none = none
pointer_of (some l) = l.mq_wait

abbrev pub pointer_to : ℕ → Option Wait → Option ℕ
pointer_to c none = none
pointer_to c (some w) = some c

-- Each wait object stands once in the chain of its queue and in no other chain, once in the heap if
-- it says so, and is what its context points at; chains, heap and contexts hold nothing else.
pub record Inv (s : State) : Type 0 where
  pub chained : (q : Bytes) (c : ℕ) → count c (waits_of (s.mq_set q)) ≡ waits_at q (s.objects c)
  pub heaped : (c : ℕ) → count c s.mq_timeout ≡ heap_nodes (s.objects c)
  pub joined : (c : ℕ) → pointer_of (s.ctxs c) ≡ pointer_to c (s.objects c)

-- The state without the wait object `p`.
abbrev pub released : Bytes → ℕ → Mq → CtxMq → Wait → State → State
released q p mq l w s = record s {
  mq_set = update s.mq_set q (some (record mq { waits = erase p mq.waits }));
  mq_timeout = if w.in_heap then erase p s.mq_timeout else s.mq_timeout;
  ctxs = update_at s.ctxs p (some (record l { mq_wait = none }));
  objects = update_at s.objects p none;
}

module _ (p : ℕ) (mq : Mq) (l : CtxMq) (w : Wait) (s : State) (v : Inv s)
    (eq : s.mq_set w.mq ≡ some mq) (eo : s.objects p ≡ some w) where
  released-chained :
      (q : Bytes) (c : ℕ)
      → let s' = released w.mq p mq l w s in
        count c (waits_of (s'.mq_set q)) ≡ waits_at q (s'.objects c)
  released-chained q c =
      ground (arith, v.chained q c, v.chained w.mq c, count-erase c p mq.waits, bytes_eq→eq w.mq q)

  released-heaped :
      (c : ℕ)
      → let s' = released w.mq p mq l w s in count c s'.mq_timeout ≡ heap_nodes (s'.objects c)
  released-heaped c = ground (arith, v.heaped c, count-erase c p s.mq_timeout)

  released-joined :
      (c : ℕ)
      → let s' = released w.mq p mq l w s in pointer_of (s'.ctxs c) ≡ pointer_to c (s'.objects c)
  released-joined c = ground (arith, v.joined c)

  pub released-Inv : Inv (released w.mq p mq l w s)
  released-Inv = record {
    chained = released-chained;
    heaped = released-heaped;
    joined = released-joined;
  }

-- The calls of `wake`, on a wait object that is joined to its queue and its context.
pub wake_lem :
    (p : ℕ) (m : Msg) (mq : Mq) (l : CtxMq) (w : Wait) (s : State)
    → s.mq_set w.mq ≡ some mq
    → s.ctxs p ≡ some l
    → s.objects p ≡ some w
    → wake w.mq p m s
      ≡ some (released w.mq p mq l w (log (continues p) (log (set_ret_var p (to_value m)) s)))
unfolding wake ctx_mq_remove wait_chain_del wait_free
wake_lem p m mq l w s eq el eo = ground arith

-- What a waiter in the chain of a queue points at and is pointed at by.
pub waiter_cases :
    (p : ℕ) (q : Bytes) (s : State)
    → Inv s
    → 0 < count p (waits_of (s.mq_set q))
    → (w : Wait) × (l : CtxMq) × (s.objects p ≡ some w) × (w.mq ≡ q) × (s.ctxs p ≡ some l)
waiter_cases p q s v h = elim (Option-cases (s.objects p)) [
  | inl e ↦ absurd (ground (arith, v.chained q p))
  | inr (w, e) ↦ elim (Option-cases (s.ctxs p)) [
    | inl f ↦ absurd (ground (arith, v.joined p))
    | inr (l, f) ↦ (w, l, e, ground (arith, v.chained q p, bytes_eq→eq w.mq q), f)
  ]
]

-- Changes that leave the chains, the heap and the contexts' pointers alone.
pub log-Inv : (e : Event) (s : State) → Inv s → Inv (log e s)
log-Inv e s v = record { chained = v.chained; heaped = v.heaped; joined = v.joined }

pub put_mq-Inv :
    (q : Bytes) (m : Mq) (s : State) → Inv s → m.waits ≡ waits_of (s.mq_set q) → Inv (put_mq q m s)
put_mq-Inv q m s v h = record {
  chained = λ r c. ground (arith, v.chained r c, bytes_eq→eq q r);
  heaped = v.heaped;
  joined = v.joined;
}

pub delete_mq-Inv :
    (q : Bytes) (s : State) → Inv s → waits_of (s.mq_set q) ≡ [] → Inv (delete_mq q s)
delete_mq-Inv q s v h = record {
  chained = λ r c. ground (arith, v.chained r c, bytes_eq→eq q r);
  heaped = v.heaped;
  joined = v.joined;
}

-- The context `c` gets topics of another content.
pub topics-Inv :
    (c : ℕ) (l : CtxMq) (t : Bytes → Option (List Msg)) (s : State)
    → Inv s
    → s.ctxs c ≡ some l
    → Inv (record s { ctxs = update_at s.ctxs c (some (record l { topics = t })) })
topics-Inv c l t s v e = record {
  chained = v.chained;
  heaped = v.heaped;
  joined = λ d. ground (arith, v.joined d);
}

abbrev pub is_some {ℓ} : {A : Type ℓ} → Option A → Bool
is_some none = false
is_some (some a) = true

-- The chain of messages of a topic in a context, where it subscribes to it.
abbrev pub topic_of : Bytes → Option CtxMq → Option (List Msg)
topic_of q none = none
topic_of q (some l) = l.topics q

-- The state `s'` in which the waiter `p` of the queue has got its message.
pub record Woken (p : ℕ) (q : Bytes) (m : Msg) (mq : Mq) (s s' : State) : Type 0 where
  pub run : wake q p m s ≡ some s'
  pub inv : Inv s'
  pub told : s'.events ≡ (s.events ++ set_ret_var p (to_value m) ∷ []) ++ continues p ∷ []
  pub queue : s'.mq_set ≡ update s.mq_set q (some (record mq { waits = erase p mq.waits }))
  pub freed : s'.objects ≡ update_at s.objects p none
  pub registered : (c : ℕ) → is_some (s'.ctxs c) ≡ is_some (s.ctxs c)
  pub topics : (r : Bytes) (c : ℕ) → topic_of r (s'.ctxs c) ≡ topic_of r (s.ctxs c)

-- Waking a waiter succeeds, and the invariant holds again.
pub wake-Woken :
    (p : ℕ) (q : Bytes) (m : Msg) (mq : Mq) (s : State)
    → Inv s
    → s.mq_set q ≡ some mq
    → 0 < count p mq.waits
    → (s' : State) × Woken p q m mq s s'
wake-Woken p q m mq s v eq h =
    let (w, l, eo, same, el) = waiter_cases p q s v (rw eq h) in
    let at : s.mq_set w.mq ≡ some mq = rw same eq in
    let s1 = log (continues p) (log (set_ret_var p (to_value m)) s) in
    (
      released w.mq p mq l w s1,
      record {
        run =
            subst (λ r. wake r p m s ≡ some (released w.mq p mq l w s1)) same
              (wake_lem p m mq l w s at el eo);
        inv = released-Inv p mq l w s1 (log-Inv _ _ (log-Inv _ s v)) at eo;
        told = refl;
        queue = rw same refl;
        freed = refl;
        registered = λ c. ground (arith, el);
        topics = λ r c. ground (arith, el);
      },
    )

-- The queue `mq` is in the set of `s0`, which else is `s`.
pub record Fetched (q : Bytes) (s s0 : State) (mq : Mq) : Type 0 where
  pub inv : Inv s0
  pub there : s0.mq_set q ≡ some mq
  pub same_waits : mq.waits ≡ waits_of (s.mq_set q)
  pub same_msgs : mq.msgs ≡ msgs_of (s.mq_set q)
  pub same_objects : s0.objects ≡ s.objects
  pub same_ctxs : s0.ctxs ≡ s.ctxs
  pub same_heap : s0.mq_timeout ≡ s.mq_timeout
  pub same_events : s0.events ≡ s.events
  pub elsewhere : (r : Bytes) → bytes_eq q r ≡ false → s0.mq_set r ≡ s.mq_set r

abbrev pub Found : Grants → Bytes → State → Option (Mq × State) → Type 0
Found g q s r =
    ((r ≡ none) × ((g mq_site ≡ false) ⊎ (g mq_node_site ≡ false)))
    ⊎ ((mq : Mq) × (s0 : State) × (r ≡ some (mq, s0)) × Fetched q s s0 mq)

found_or_new-Found :
    (g : Grants) (q : Bytes) (s : State) (o : Option Mq)
    → Inv s
    → s.mq_set q ≡ o
    → Found g q s (found_or_new g q s o)
found_or_new-Found g q s (some m) v e = inr (
  m,
  s,
  refl,
  record {
    inv = v;
    there = e;
    same_waits = rw e refl;
    same_msgs = rw e refl;
    same_objects = refl;
    same_ctxs = refl;
    same_heap = refl;
    same_events = refl;
    elsewhere = λ r h. refl;
  },
)
found_or_new-Found g q s none v e = elim (Bool-cases (g mq_site)) [
  | inr f ↦ inl (rw f refl, inl f)
  | inl a ↦ elim (Bool-cases (g mq_node_site)) [
    | inr f ↦ inl (rw (a, f) refl, inr f)
    | inl b ↦ inr (
      mq_new,
      put_mq q mq_new s,
      rw (a, b) refl,
      record {
        inv = put_mq-Inv q mq_new s v (rw e refl);
        there = rw (bytes_eq_refl q) refl;
        same_waits = rw e refl;
        same_msgs = rw e refl;
        same_objects = refl;
        same_ctxs = refl;
        same_heap = refl;
        same_events = refl;
        elsewhere = λ r h. rw h refl;
      },
    )
  ]
]

pub fetch_or_new-Found :
    (g : Grants) (q : Bytes) (s : State) → Inv s → Found g q s (fetch_or_new g q s)
unfolding fetch_or_new
fetch_or_new-Found g q s v = found_or_new-Found g q s (s.mq_set q) v refl
