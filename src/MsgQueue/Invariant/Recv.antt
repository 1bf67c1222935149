-- ===== src/MsgQueue/Invariant/Recv.antt =====
-- lib_src/msgqueue/mln_lang_msgqueue_impl.c: `recv` follows no dangling pointer and keeps the
-- invariant, whether it returns a message at once or suspends its context.
use melang.Base.{
  ℕ, ◌+◌, ◌%◌, ◌^◌, ◌≡◌, refl, sym, true, false, List, [], ◌∷◌, ◌++◌, Option, none, some, inl, inr,
  Bool-cases, Option-cases, bytes_eq_refl, bytes_eq→eq, arith, count, erase, count-append,
  count-erase, if◌then◌else◌,
}
use melang.Script.{Bytes, Value}
use melang.MsgQueue.{
  Msg, Mq, Wait, CtxMq, State, suspend, Grants, nil_site, wait_site, value_site, timer_site, value,
  gives_up, log, update, update_at, is_nil, ctx_mq_join, wait_free, wait_chain_del,
}
use melang.MsgQueue.Recv.{
  linked, suspended, undone, with_timeout, waiting_for, take_first, take_or_wait, get_from,
  mq_msg_get,
}
use melang.MsgQueue.Invariant.{
  Inv, waits_of, waits_at, heap_nodes, pointer_of, pointer_to, is_some, put_mq-Inv, delete_mq-Inv,
  log-Inv, Fetched, fetch_or_new-Found,
}
use melang.MsgQueue.Invariant.Send.{Safe}

-- The state in which the context `c` waits at the queue.
abbrev pub waiting_state : ℕ → Bytes → Mq → CtxMq → Wait → State → State
waiting_state c q mq l w s = record s {
  mq_set = update s.mq_set q (some (record mq { waits = mq.waits ++ c ∷ [] }));
  mq_timeout = if w.in_heap then c ∷ s.mq_timeout else s.mq_timeout;
  ctxs = update_at s.ctxs c (some (record l { mq_wait = some c }));
  objects = update_at s.objects c (some w);
}

module _ (c : ℕ) (mq : Mq) (l : CtxMq) (w : Wait) (s : State) (v : Inv s) (eo : s.objects c ≡ none)
    (eq : s.mq_set w.mq ≡ some mq) where
  waiting-chained :
      (q : Bytes) (d : ℕ)
      → let s' = waiting_state c w.mq mq l w s in
        count d (waits_of (s'.mq_set q)) ≡ waits_at q (s'.objects d)
  waiting-chained q d =
      ground (
        arith,
        v.chained q d,
        v.chained w.mq d,
        count-append d mq.waits (c ∷ []),
        bytes_eq→eq w.mq q,
      )

  waiting-heaped :
      (d : ℕ)
      → let s' = waiting_state c w.mq mq l w s in count d s'.mq_timeout ≡ heap_nodes (s'.objects d)
  waiting-heaped d = ground (arith, v.heaped d)

  waiting-joined :
      (d : ℕ)
      → let s' = waiting_state c w.mq mq l w s in
        pointer_of (s'.ctxs d) ≡ pointer_to d (s'.objects d)
  waiting-joined d = ground (arith, v.joined d)

  pub waiting-Inv : Inv (waiting_state c w.mq mq l w s)
  waiting-Inv = record {
    chained = waiting-chained;
    heaped = waiting-heaped;
    joined = waiting-joined;
  }

-- The state after the timer could not be set.
abbrev pub undone_state : ℕ → Bytes → Mq → Wait → State → State
undone_state c q mq w s = record s {
  mq_set =
      update (update s.mq_set q (some (record mq { waits = mq.waits ++ c ∷ [] }))) q
        (some (record mq { waits = erase c (mq.waits ++ c ∷ []) }));
  mq_timeout = erase c (c ∷ s.mq_timeout);
  objects = update_at (update_at s.objects c (some w)) c none;
}

module _ (c : ℕ) (q : Bytes) (mq : Mq) (w : Wait) (s : State) (v : Inv s) (eo : s.objects c ≡ none)
    (eq : s.mq_set q ≡ some mq) where
  undone-chained :
      (r : Bytes) (d : ℕ)
      → let s' = undone_state c q mq w s in
        count d (waits_of (s'.mq_set r)) ≡ waits_at r (s'.objects d)
  undone-chained r d = ground (
    arith,
    v.chained r d,
    count-append d mq.waits (c ∷ []),
    count-erase d c (mq.waits ++ c ∷ []),
    bytes_eq→eq q r,
  )

  undone-heaped :
      (d : ℕ)
      → let s' = undone_state c q mq w s in count d s'.mq_timeout ≡ heap_nodes (s'.objects d)
  undone-heaped d = ground (arith, v.heaped d, count-erase d c (c ∷ s.mq_timeout))

  undone-joined :
      (d : ℕ)
      → let s' = undone_state c q mq w s in pointer_of (s'.ctxs d) ≡ pointer_to d (s'.objects d)
  undone-joined d = ground (arith, v.joined d)

  undone-Inv : Inv (undone_state c q mq w s)
  undone-Inv = record { chained = undone-chained; heaped = undone-heaped; joined = undone-joined }

-- The calls that suspend the context, and those that undo it.
pub suspended_lem :
    (c : ℕ) (l : CtxMq) (s : State)
    → s.ctxs c ≡ some l
    → suspended c s
      ≡ some (
        value Value.nil,
        log
            (suspend c)
            (record s { ctxs = update_at s.ctxs c (some (record l { mq_wait = some c })) }),
      )
unfolding ctx_mq_join
suspended_lem c l s e = ground arith

suspended-Safe :
    (c : ℕ) (l : CtxMq) (s : State)
    → s.ctxs c ≡ some l
    → Inv (record s { ctxs = update_at s.ctxs c (some (record l { mq_wait = some c })) })
    → Safe (suspended c s)
suspended-Safe c l s e v = rw (suspended_lem c l s e) (log-Inv (suspend c) _ v)

pub undone_lem :
    (c : ℕ) (q : Bytes) (mq : Mq) (w : Wait) (s : State)
    → w.in_heap ≡ true
    → undone c q (linked c q mq w (record s { mq_timeout = c ∷ s.mq_timeout }))
      ≡ gives_up (undone_state c q mq w s)
unfolding wait_chain_del wait_free
undone_lem c q mq w s h = ground (arith, bytes_eq_refl q)

module _ (g : Grants) (c : ℕ) (q : Bytes) (mq : Mq) (l : CtxMq) (s : State) (v : Inv s)
    (eo : s.objects c ≡ none) (eq : s.mq_set q ≡ some mq) (el : s.ctxs c ≡ some l) where
  with_timeout-Safe : (at : ℕ) → Safe (with_timeout g c q mq at s)
  with_timeout-Safe at =
      let w : Wait = record { mq = q; timestamp = at; in_heap = true } in
      let v1 = waiting-Inv c mq l w s v eo eq in
      elim (Bool-cases (is_nil s.mq_timeout)) [
        | inr f ↦ rw f (suspended-Safe c l _ el v1)
        | inl first ↦ elim (Bool-cases (g timer_site)) [
          | inl a ↦
              rw (first, a)
                (suspended-Safe c l _ el
                  (record { chained = v1.chained; heaped = v1.heaped; joined = v1.joined }))
          | inr f ↦ rw (first, f, undone_lem c q mq w s refl) (undone-Inv c q mq w s v eo eq)
        ]
      ]

  waiting_for-Safe : (now : ℕ) (t : Option ℕ) → Safe (waiting_for g c q mq now s t)
  waiting_for-Safe now none =
      let w : Wait = record { mq = q; timestamp = 0; in_heap = false } in
      suspended-Safe c l _ el (waiting-Inv c mq l w s v eo eq)
  waiting_for-Safe now (some t) = with_timeout-Safe ((now + t) % 2 ^ 64)

take_first-Safe :
    (g : Grants) (q : Bytes) (m : Msg) (ms : List Msg) (s : State)
    → Inv s
    → waits_of (s.mq_set q) ≡ []
    → Safe (take_first g q m ms s)
take_first-Safe g q m [] s v e = elim (Bool-cases (g value_site)) [
  | inl a ↦ rw a (delete_mq-Inv q s v e)
  | inr f ↦ rw f v
]
take_first-Safe g q m (n ∷ ms) s v e = elim (Bool-cases (g value_site)) [
  | inl a ↦ rw a (put_mq-Inv q _ s v (sym e))
  | inr f ↦ rw f v
]

take_or_wait-Safe :
    (g : Grants) (c : ℕ) (q : Bytes) (l : CtxMq) (t : Option ℕ) (now : ℕ) (ms : List Msg)
    (ps : List ℕ) (s : State)
    → Inv s
    → s.objects c ≡ none
    → s.ctxs c ≡ some l
    → s.mq_set q ≡ some (record { msgs = ms; waits = ps })
    → Safe (take_or_wait g c q t now s ms ps)
take_or_wait-Safe g c q l t now [] [] s v eo el eq = waiting_for-Safe g c q _ l s v eo eq el now t
take_or_wait-Safe g c q l t now (m ∷ ms) [] s v eo el eq = take_first-Safe g q m ms s v (rw eq refl)
take_or_wait-Safe g c q l t now [] (p ∷ ps) s v eo el eq =
    waiting_for-Safe g c q _ l s v eo eq el now t
take_or_wait-Safe g c q l t now (m ∷ ms) (p ∷ ps) s v eo el eq =
    waiting_for-Safe g c q _ l s v eo eq el now t

get_from-Safe :
    (g : Grants) (c : ℕ) (q : Bytes) (l : CtxMq) (t : Option ℕ) (now : ℕ) (mq : Mq) (s s0 : State)
    → Fetched q s s0 mq
    → s0.objects c ≡ none
    → s0.ctxs c ≡ some l
    → Safe (get_from g c q t now s (some (mq, s0)))
unfolding get_from
get_from-Safe g c q l t now mq s s0 f eo el = elim (Bool-cases (g nil_site)) [
  | inr no_nil ↦ rw no_nil f.inv
  | inl nil ↦ elim (Bool-cases (g wait_site)) [
    | inr no_wait ↦ rw (nil, no_wait) f.inv
    | inl wait ↦
        rw (nil, wait) (take_or_wait-Safe g c q l t now mq.msgs mq.waits s0 f.inv eo el f.there)
  ]
]

-- Receiving from a queue never follows a dangling pointer, whichever requests fail, and keeps the
-- invariant, for a context that has imported the library and does not wait already.
pub mq_msg_get-Safe :
    (g : Grants) (c : ℕ) (q : Bytes) (t : Option ℕ) (now : ℕ) (s : State)
    → Inv s
    → s.objects c ≡ none
    → is_some (s.ctxs c) ≡ true
    → Safe (mq_msg_get g c q t now s)
unfolding mq_msg_get
mq_msg_get-Safe g c q t now s v eo r = elim (Option-cases (s.ctxs c)) [
  | inl e ↦ absurd (ground (arith, r))
  | inr (l, el) ↦ elim (fetch_or_new-Found g q s v) [
    | inl (no_queue, _) ↦ rw no_queue (unfold get_from in v)
    | inr (mq, s0, found, f) ↦
        rw found (get_from-Safe g c q l t now mq s s0 f (rw f.same_objects eo) (rw f.same_ctxs el))
  ]
]
