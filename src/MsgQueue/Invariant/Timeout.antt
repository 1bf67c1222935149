-- ===== src/MsgQueue/Invariant/Timeout.antt =====
-- lib_src/msgqueue/mln_lang_msgqueue_impl.c: the timer's handler wakes exactly the waiters whose
-- time has come.
use melang.Base.{
  ◌⊎◌, ℕ, zero, suc, ◌-◌, ◌≤◌, ◌<◌, ◌≡◌, refl, Bool, true, false, List, [], ◌∷◌, Option, none, some,
  inl, inr, Bool-cases, Option-cases, bytes_eq_refl, arith, count, erase, if◌then◌else◌, ltb, leb,
  ltb→lt, length, ◌&&◌, ◌==◌,
}
use melang.MsgQueue.{
  Mq, Wait, CtxMq, State, continues, log, update, update_at, delete_mq, is_nil, ctx_mq_remove,
  wait_free, wait_chain_del,
}
use melang.MsgQueue.Timeout.{
  Minimum, timestamps, delete_empty, expire, expire_all, timeout_handler, rearm,
}
use melang.MsgQueue.Invariant.{Inv, waits_of, released-Inv, delete_mq-Inv, waiter_cases}

-- What the library relies on of mln_fheap_minimum: a node of the heap with the least key, and none
-- of the empty heap only.
pub record IsMinimum (minimum : Minimum) : Type 0 where
  pub empty : (k : ℕ → ℕ) (xs : List ℕ) → minimum k xs ≡ none → xs ≡ []
  pub member : (k : ℕ → ℕ) (xs : List ℕ) (p : ℕ) → minimum k xs ≡ some p → 0 < count p xs
  pub least :
      (k : ℕ → ℕ) (xs : List ℕ) (p d : ℕ) → minimum k xs ≡ some p → 0 < count d xs → k p ≤ k d

-- The state before a queue that has become empty is deleted.
abbrev expired : ℕ → Mq → CtxMq → Wait → State → State
expired p mq l w s = log (continues p) (record s {
  mq_set = update s.mq_set w.mq (some (record mq { waits = erase p mq.waits }));
  mq_timeout = erase p s.mq_timeout;
  ctxs = update_at s.ctxs p (some (record l { mq_wait = none }));
  objects = update_at (update_at s.objects p (some (record w { in_heap = false }))) p none;
})

-- What one round does to the wait objects and to the heap.
pub record Expired (p : ℕ) (s s' : State) : Type 0 where
  pub inv : Inv s'
  pub freed : (c : ℕ) → s'.objects c ≡ (if p == c then none else s.objects c)
  pub heap : s'.mq_timeout ≡ erase p s.mq_timeout
  pub timers : s'.timers ≡ s.timers

delete_empty-Expired :
    (p : ℕ) (w : Wait) (m : Mq) (s s3 : State)
    → Expired p s s3
    → s3.mq_set w.mq ≡ some m
    → (s' : State) × (delete_empty w s3 (some m) ≡ some s') × Expired p s s'
delete_empty-Expired p w m s s3 x e = elim (Bool-cases (is_nil m.msgs && is_nil m.waits)) [
  | inl gone ↦ (
    delete_mq w.mq s3,
    rw gone refl,
    record {
      inv = delete_mq-Inv w.mq s3 x.inv (ground (arith, e));
      freed = x.freed;
      heap = x.heap;
      timers = x.timers;
    },
  )
  | inr stays ↦ (s3, rw stays refl, x)
]

module _ (p : ℕ) (mq : Mq) (l : CtxMq) (w : Wait) (s : State) (v : Inv s)
    (eq : s.mq_set w.mq ≡ some mq) (el : s.ctxs p ≡ some l) (eo : s.objects p ≡ some w)
    (eh : w.in_heap ≡ true) where
  expired-Expired : Expired p s (expired p mq l w s)
  expired-Expired =
      let v1 = released-Inv p mq l w s v eq eo in
      record {
        inv = record {
          chained = λ q c. ground (arith, v1.chained q c);
          heaped = λ c. ground (arith, v1.heaped c, eh);
          joined = λ c. ground (arith, v1.joined c);
        };
        freed = λ c. ground arith;
        heap = refl;
        timers = refl;
      }

  expire_lem :
      expire p w s
      ≡ delete_empty w (expired p mq l w s) (some (record mq { waits = erase p mq.waits }))
  unfolding expire wait_chain_del ctx_mq_remove wait_free
  expire_lem = ground (arith, bytes_eq_refl w.mq)

-- One round on a node of the heap.
expire-Expired :
    (p : ℕ) (w : Wait) (s : State)
    → Inv s
    → s.objects p ≡ some w
    → w.in_heap ≡ true
    → (s' : State) × (expire p w s ≡ some s') × Expired p s s'
expire-Expired p w s v eo eh =
    let h : 0 < count p (waits_of (s.mq_set w.mq)) =
      ground (arith, v.chained w.mq p, bytes_eq_refl w.mq) in
    let (w', l, eo', same, el) = waiter_cases p w.mq s v h in
    elim (Option-cases (s.mq_set w.mq)) [
      | inl e ↦ absurd (ground (arith, h))
      | inr (mq, e) ↦ rw (expire_lem p mq l w s v e el eo eh) (
          delete_empty-Expired p w (record mq { waits = erase p mq.waits }) s (expired p mq l w s)
            (expired-Expired p mq l w s v e el eo eh) (rw (bytes_eq_refl w.mq) refl))
    ]

-- Whether the handler has to wake the owner of a wait object.
abbrev pub is_due : ℕ → Option Wait → Bool
is_due now none = false
is_due now (some w) = w.in_heap && leb w.timestamp now

-- After the handler: the wait objects that were due are gone, all others are as they were, and
-- where the heap is not empty a timer is set, unless it was refused.
pub record Swept (set : Bool) (now : ℕ) (s s' : State) : Type 0 where
  pub inv : Inv s'
  pub swept : (c : ℕ) → s'.objects c ≡ (if is_due now (s.objects c) then none else s.objects c)
  pub armed : (set ≡ false) ⊎ ((s'.mq_timeout ≡ []) ⊎ (0 < s'.timers))

length-erase : (p : ℕ) (xs : List ℕ) → 0 < count p xs → length (erase p xs) < length xs
length-erase p [] h = absurd (omega arith)
length-erase p (x ∷ xs) h = ground (arith, length-erase p xs)

-- A node of the heap has its wait object, which says so.
in_heap_cases :
    (p : ℕ) (s : State)
    → Inv s
    → 0 < count p s.mq_timeout
    → (w : Wait) × (s.objects p ≡ some w) × (w.in_heap ≡ true)
in_heap_cases p s v h = elim (Option-cases (s.objects p)) [
  | inl e ↦ absurd (ground (arith, v.heaped p))
  | inr (w, e) ↦ (w, e, ground (arith, v.heaped p))
]

module _ (minimum : Minimum) (least : IsMinimum minimum) (set : Bool) (now : ℕ) where
  empty-Swept : (s : State) → Inv s → s.mq_timeout ≡ [] → Swept set now s s
  empty-Swept s v e = record {
    inv = v;
    swept = λ c. ground (arith, v.heaped c);
    armed = inr (inl e);
  }

  early-Swept :
      (p : ℕ) (w : Wait) (s : State)
      → Inv s
      → minimum (timestamps s) s.mq_timeout ≡ some p
      → s.objects p ≡ some w
      → now < w.timestamp
      → Swept set now s (rearm set s)
  early-Swept p w s v e eo h = elim (Bool-cases set) [
    | inl granted ↦ rw granted (record {
      inv = record { chained = v.chained; heaped = v.heaped; joined = v.joined };
      swept = λ c. ground (arith, v.heaped c, least.least (timestamps s) s.mq_timeout p c e);
      armed = inr (inr (omega arith));
    })
    | inr refused ↦ rw refused (record {
      inv = v;
      swept = λ c. ground (arith, v.heaped c, least.least (timestamps s) s.mq_timeout p c e);
      armed = inl refl;
    })
  ]

  next-Swept :
      (p : ℕ) (w : Wait) (s s1 s' : State)
      → s.objects p ≡ some w
      → w.in_heap ≡ true
      → w.timestamp ≤ now
      → Expired p s s1
      → Swept set now s1 s'
      → Swept set now s s'
  next-Swept p w s s1 s' eo eh h x y = record {
    inv = y.inv;
    swept = λ c. ground (arith, y.swept c, x.freed c);
    armed = y.armed;
  }

  expire_all-Swept :
      (fuel : ℕ) (s : State)
      → Inv s
      → length s.mq_timeout < fuel
      → (s' : State) × (expire_all minimum set now fuel s ≡ some s') × Swept set now s s'
  unfolding expire_all
  expire_all-Swept zero s v h = absurd (omega arith)
  expire_all-Swept (suc fuel) s v h = elim (Option-cases (minimum (timestamps s) s.mq_timeout)) [
    | inl e ↦ (s, rw (e, expire_all) refl, empty-Swept s v (least.empty _ _ e))
    | inr (p, e) ↦
        let (w, eo, eh) = in_heap_cases p s v (least.member _ _ p e) in
        elim (Bool-cases (ltb now w.timestamp)) [
          | inl early ↦ (
            rearm set s,
            rw (e, eo, early, expire_all) refl,
            early-Swept p w s v e eo (ltb→lt _ _ early),
          )
          | inr late ↦
              let (s1, run, x) = expire-Expired p w s v eo eh in
              let (s', loop, y) =
                expire_all-Swept fuel s1 x.inv
                  (rw x.heap (omega (arith, length-erase p s.mq_timeout (least.member _ _ p e)))) in
              (
                s',
                rw (e, eo, late, run, expire_all) loop,
                next-Swept p w s s1 s' eo eh (ground arith) x y,
              )
        ]
  ]

  -- From a state with the invariant, the handler of a running interpreter returns: its loop ends,
  -- and it follows no dangling pointer. It frees the wait objects that are due at `now`, leaves
  -- all others and keeps the invariant; where the heap is then not empty a timer is set, unless
  -- the event loop refused it.
  pub timeout_handler-Swept :
      (s : State)
      → Inv s
      → (s' : State) × (timeout_handler minimum set false now s ≡ some s') × Swept set now s s'
  unfolding timeout_handler
  timeout_handler-Swept s v =
      let s1 : State = record s { timers = s.timers - 1 } in
      let (s', run, x) =
        expire_all-Swept (suc (length s.mq_timeout)) s1
          (record { chained = v.chained; heaped = v.heaped; joined = v.joined }) (omega arith) in
      (s', run, record { inv = x.inv; swept = x.swept; armed = x.armed })
