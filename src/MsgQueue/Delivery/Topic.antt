-- ===== src/MsgQueue/Delivery/Topic.antt =====
-- lib_src/msgqueue/mln_lang_msgqueue_impl.c: topics, broadcasts, the end of a context.
use melang.Base.{
  ℕ, ◌≡◌, refl, ◌∙◌, true, List, [], ◌∷◌, ◌++◌, Option, none, some, inl, inr, Option-cases,
  bytes_eq_refl, arith, if◌then◌else◌, All, ◌==◌, count, ltb, ◌≤◌,
}
use melang.Script.{Bytes, Value}
use melang.MsgQueue.{
  Msg, CtxMq, State, Grants, msg_site, nil_site, value_site, value, msg_new, to_value, set_ret_var,
  continues, update_at,
}
use melang.MsgQueue.Send.{broadcast_ctx, broadcast_to, mq_msg_broadcast, set_topics}
use melang.MsgQueue.Topics.{ctx_mq_free}
use melang.MsgQueue.Invariant.{Inv, wake-Woken, is_some, pointer_of, topic_of}
use melang.MsgQueue.Invariant.Send.{pointed}
use melang.MsgQueue.Delivery.{Granted}

-- From a state with the invariant and where memory is granted, a broadcast wakes a subscriber that
-- waits at whatever queue: its `recv` returns the message of the topic, its wait object is freed,
-- and the topic holds what it held, older messages included.
pub broadcast_ctx-wakes_any :
    (g : Grants) (c p : ℕ) (q : Bytes) (x : Value) (m : Msg) (ms : List Msg) (l : CtxMq) (s : State)
    → Inv s
    → Granted g
    → msg_new true x ≡ some m
    → s.ctxs c ≡ some l
    → l.topics q ≡ some ms
    → l.mq_wait ≡ some p
    → (s' : State) × (broadcast_ctx g c q x s ≡ some (true, s'))
      × (s'.events ≡ (s.events ++ set_ret_var c (to_value m) ∷ []) ++ continues c ∷ [])
      × (s'.objects c ≡ none)
      × (topic_of q (s'.ctxs c) ≡ some ms)
unfolding broadcast_ctx
broadcast_ctx-wakes_any g c p q x m ms l s v ok new el et ew =
    let (same, (w, mq, eo, em, h)) = pointed c p l s v el ew in
    let (s', woken) = wake-Woken c w.mq m mq s v em h in
    (
      s',
      ground (arith, ok msg_site, ok value_site, woken.run),
      woken.told,
      rw woken.freed (ground arith),
      woken.topics q c ∙ rw el et,
    )

-- A subscriber that does not wait finds the message behind those that its topic holds.
pub broadcast_ctx-keeps :
    (g : Grants) (c : ℕ) (q : Bytes) (x : Value) (m : Msg) (ms : List Msg) (l : CtxMq) (s : State)
    → Granted g
    → msg_new true x ≡ some m
    → s.ctxs c ≡ some l
    → l.topics q ≡ some ms
    → l.mq_wait ≡ none
    → (s' : State) × (broadcast_ctx g c q x s ≡ some (true, s'))
      × (s'.events ≡ s.events)
      × (topic_of q (s'.ctxs c) ≡ some (ms ++ m ∷ []))
unfolding broadcast_ctx
broadcast_ctx-keeps g c q x m ms l s ok new el et ew = (
  set_topics c l q (ms ++ m ∷ []) s,
  ground (arith, ok msg_site),
  refl,
  ground (arith, bytes_eq_refl q),
)

-- A broadcast that meets a context without the library follows its NULL resource.
pub broadcast_to-fault :
    (g : ℕ → Grants) (c : ℕ) (cs : List ℕ) (q : Bytes) (x : Value) (s : State)
    → s.ctxs c ≡ none
    → broadcast_to g (c ∷ cs) q x s ≡ none
unfolding broadcast_to broadcast_ctx
broadcast_to-fault g c cs q x s e = ground (arith, e)

-- The end of a context that has the library and does not wait: it is freed, and the invariant holds.
pub ctx_mq_free-Inv :
    (c : ℕ) (s : State)
    → Inv s
    → is_some (s.ctxs c) ≡ true
    → s.objects c ≡ none
    → (s' : State) × (ctx_mq_free c s ≡ some s') × Inv s'
unfolding ctx_mq_free
ctx_mq_free-Inv c s v r idle = elim (Option-cases (s.ctxs c)) [
  | inl e ↦ absurd (ground (arith, r))
  | inr (l, e) ↦ (
    record s { ctxs = update_at s.ctxs c none },
    ground (arith, v.joined c),
    record { chained = v.chained; heaped = v.heaped; joined = λ d. ground (arith, v.joined d) },
  )
]

-- The topic with the message behind those that it holds.
abbrev pub extended : Msg → Option (List Msg) → Option (List Msg)
extended m none = none
extended m (some ms) = some (ms ++ m ∷ [])

-- The context has the library and does not wait.
abbrev pub IsIdle : State → ℕ → Type 0
IsIdle s c = (is_some (s.ctxs c) ≡ true) × (pointer_of (s.ctxs c) ≡ none)

broadcast_ctx-IsIdle :
    (g : Grants) (c : ℕ) (q : Bytes) (x : Value) (m : Msg) (s : State)
    → Granted g
    → msg_new true x ≡ some m
    → IsIdle s c
    → (s' : State) × (broadcast_ctx g c q x s ≡ some (true, s'))
      × ((d : ℕ)
          → topic_of q (s'.ctxs d)
            ≡ (if c == d then extended m (topic_of q (s.ctxs d)) else topic_of q (s.ctxs d)))
      × ((d : ℕ) → IsIdle s d → IsIdle s' d)
unfolding broadcast_ctx
broadcast_ctx-IsIdle g c q x m s ok new (r, idle) = elim (Option-cases (s.ctxs c)) [
  | inl e ↦ absurd (ground (arith, r))
  | inr (l, e) ↦ elim (Option-cases (l.topics q)) [
    | inl et ↦ (s, ground arith, (λ d. ground arith), (λ d h. h))
    | inr (ms, et) ↦ (
      set_topics c l q (ms ++ m ∷ []) s,
      ground (arith, ok msg_site),
      (λ d. ground (arith, bytes_eq_refl q)),
      (λ d h. ground (arith, h.0, h.1)),
    )
  ]
]

All-step :
    (s s' : State) (cs : List ℕ)
    → ((d : ℕ) → IsIdle s d → IsIdle s' d)
    → All (IsIdle s) cs
    → All (IsIdle s') cs
All-step s s' [] h a = tt
All-step s s' (c ∷ cs) h (i, a) = (h c i, All-step s s' cs h a)

broadcast_to-IsIdle :
    (g : ℕ → Grants) (cs : List ℕ) (q : Bytes) (x : Value) (m : Msg) (s : State)
    → ((c : ℕ) → Granted (g c))
    → msg_new true x ≡ some m
    → All (IsIdle s) cs
    → ((d : ℕ) → count d cs ≤ 1)
    → (s' : State) × (broadcast_to g cs q x s ≡ some (true, s'))
      × ((d : ℕ)
          → topic_of q (s'.ctxs d) ≡ (
              if ltb 0 (count d cs)
              then extended m (topic_of q (s.ctxs d))
              else topic_of q (s.ctxs d)))
      × ((d : ℕ) → IsIdle s d → IsIdle s' d)
unfolding broadcast_to
broadcast_to-IsIdle g [] q x m s ok new idle once = (s, refl, (λ d. refl), (λ d h. h))
broadcast_to-IsIdle g (c ∷ cs) q x m s ok new (i, idle) once =
    let (s1, run, at, keep) = broadcast_ctx-IsIdle (g c) c q x m s (ok c) new i in
    let (s2, runs, at2, keep2) =
      broadcast_to-IsIdle g cs q x m s1 ok new (All-step s s1 cs keep idle)
        (λ d. ground (arith, once d)) in
    (s2, rw run runs, (λ d. ground (arith, at d, at2 d, once d)), (λ d h. keep2 d (keep d h)))

-- Where memory is granted and none of the listed contexts waits, each listed once, a broadcast
-- puts the message behind those of the topic in every one of them that subscribes to it, and
-- changes that topic in no other context; afterwards none of them waits either.
pub mq_msg_broadcast-reaches :
    (g : Grants) (gs : ℕ → Grants) (running waiting : List ℕ) (q : Bytes) (x : Value) (m : Msg)
    (s : State)
    → Granted g
    → ((c : ℕ) → Granted (gs c))
    → msg_new true x ≡ some m
    → All (IsIdle s) (running ++ waiting)
    → ((d : ℕ) → count d (running ++ waiting) ≤ 1)
    → (s' : State) × (mq_msg_broadcast g gs running waiting q x s ≡ some (value Value.nil, s'))
      × ((d : ℕ)
          → topic_of q (s'.ctxs d) ≡ (
              if ltb 0 (count d (running ++ waiting))
              then extended m (topic_of q (s.ctxs d))
              else topic_of q (s.ctxs d)))
      × All (IsIdle s') (running ++ waiting)
unfolding mq_msg_broadcast
mq_msg_broadcast-reaches g gs running waiting q x m s ok oks new idle once =
    let (s', run, at, keep) =
      broadcast_to-IsIdle gs (running ++ waiting) q x m s oks new idle once in
    (s', rw (run, ok nil_site) refl, at, All-step s s' (running ++ waiting) keep idle)
