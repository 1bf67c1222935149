-- ===== src/MsgQueue/Quiet/Recv.antt =====
-- lib_src/msgqueue/mln_lang_msgqueue_impl.c: messages and waiters at one queue, in
-- `recv` and in the timer's handler.
use melang.Base.{
  ℕ, zero, suc, ltb, ◌&&◌, ◌+◌, ◌%◌, ◌^◌, ◌≡◌, refl, Bool, true, false, List, [], ◌∷◌, ◌++◌, Option,
  none, some, inl, inr, Bool-cases, Option-cases, arith, ◌>>=◌,
}
use melang.Script.{Bytes, Env, Result, ok, err, fault}
use melang.MsgQueue.{
  Msg, Mq, Wait, CtxMq, State, Grants, Answer, nil_site, value_site, wait_site, timer_site, log,
  is_nil, ctx_mq_join, fetch_or_new, continues,
}
use melang.MsgQueue.Args.{RecvArgs, recv_args}
use melang.MsgQueue.Recv.{
  first_of_topic, mq_msg_subscribe_get, take_first, linked, suspended, undone, with_timeout,
  waiting_for, take_or_wait, get_from, mq_msg_get, recv_from, recv_with, recv_process,
}
use melang.MsgQueue.Timeout.{
  extracted, expire, expire_all, delete_empty, Minimum, timeout_handler, rearm, timestamps,
}
use melang.MsgQueue.Quiet.{
  IsQuiet, Quiet, QuietState, QuietAfter, put-Quiet, wait_chain_del-Quiet, wait_free-Quiet,
  ctx_mq_remove-Quiet, bind-Quiet, found_or_new-Quiet,
}

suspended-Quiet : (c : ℕ) (s : State) → Quiet s → QuietAfter (suspended c s)
unfolding ctx_mq_join
suspended-Quiet c s h = elim (Option-cases (s.ctxs c)) [ inl e ↦ rw e tt | inr (l, e) ↦ rw e h ]

bind_after :
    (o : Option State) (f : State → Option (Answer × State))
    → QuietState o
    → ((s : State) → Quiet s → QuietAfter (f s))
    → QuietAfter (o >>= f)
bind_after none f h k = tt
bind_after (some s) f h k = k s h

undone-Quiet : (c : ℕ) (q : Bytes) (s : State) → Quiet s → QuietAfter (undone c q s)
undone-Quiet c q s h =
    bind_after _ _ (wait_chain_del-Quiet c q s h)
      λ s1 h1. bind_after _ _ (wait_free-Quiet c s1 h1) λ s2 h2. h2

module _ (g : Grants) (c : ℕ) (q : Bytes) (mq : Mq) (s : State) (h : Quiet s)
    (no_message : mq.msgs ≡ []) where
  linked-Quiet :
      (r : Bytes)
      → IsQuiet ((linked c q mq (record { mq = q; timestamp = 0; in_heap = false }) s).mq_set r)
  linked-Quiet =
      put-Quiet s.mq_set q (some (record mq { waits = mq.waits ++ c ∷ [] })) h (inl no_message)

  with_timeout-Quiet : (at : ℕ) → QuietAfter (with_timeout g c q mq at s)
  with_timeout-Quiet at = elim (Bool-cases (is_nil s.mq_timeout)) [
    | inr n ↦ rw n (suspended-Quiet c _ linked-Quiet)
    | inl first ↦ elim (Bool-cases (g timer_site)) [
      | inl y ↦ rw (first, y) (suspended-Quiet c _ linked-Quiet)
      | inr n ↦ rw (first, n) (undone-Quiet c q _ linked-Quiet)
    ]
  ]

  waiting_for-Quiet : (now : ℕ) (t : Option ℕ) → QuietAfter (waiting_for g c q mq now s t)
  waiting_for-Quiet now none = suspended-Quiet c _ linked-Quiet
  waiting_for-Quiet now (some t) = with_timeout-Quiet ((now + t) % 2 ^ 64)

take_first-Quiet :
    (g : Grants) (q : Bytes) (m : Msg) (ms : List Msg) (s : State)
    → Quiet s
    → QuietAfter (take_first g q m ms s)
take_first-Quiet g q m [] s h = elim (Bool-cases (g value_site)) [
  | inl y ↦ rw y (put-Quiet s.mq_set q none h (inl refl))
  | inr n ↦ rw n h
]
take_first-Quiet g q m (n ∷ ms) s h = elim (Bool-cases (g value_site)) [
  | inl y ↦ rw y (put-Quiet s.mq_set q (some (record { msgs = n ∷ ms; waits = [] })) h (inr refl))
  | inr n ↦ rw n h
]

take_or_wait-Quiet :
    (g : Grants) (c : ℕ) (q : Bytes) (t : Option ℕ) (now : ℕ) (s : State) (ms : List Msg)
    (ps : List ℕ)
    → Quiet s
    → IsQuiet (some (record { msgs = ms; waits = ps }))
    → QuietAfter (take_or_wait g c q t now s ms ps)
take_or_wait-Quiet g c q t now s (m ∷ ms) [] h k = take_first-Quiet g q m ms s h
take_or_wait-Quiet g c q t now s [] [] h k =
    waiting_for-Quiet g c q (record { msgs = []; waits = [] }) s h refl now t
take_or_wait-Quiet g c q t now s [] (p ∷ ps) h k =
    waiting_for-Quiet g c q (record { msgs = []; waits = p ∷ ps }) s h refl now t
take_or_wait-Quiet g c q t now s (m ∷ ms) (p ∷ ps) h (inl e) = absurd (ground (arith, e))
take_or_wait-Quiet g c q t now s (m ∷ ms) (p ∷ ps) h (inr e) = absurd (ground (arith, e))

mq_msg_get-Quiet :
    (g : Grants) (c : ℕ) (q : Bytes) (t : Option ℕ) (now : ℕ) (s : State)
    → Quiet s
    → QuietAfter (mq_msg_get g c q t now s)
unfolding mq_msg_get fetch_or_new get_from
mq_msg_get-Quiet g c q t now s h = elim (found_or_new-Quiet g q s (s.mq_set q) h refl) [
  | inl none_found ↦ rw none_found h
  | inr (mq, s0, found, h0, k) ↦ elim (Bool-cases (g nil_site)) [
    | inr n ↦ rw (found, n) h0
    | inl y ↦ elim (Bool-cases (g wait_site)) [
      | inr n ↦ rw (found, y, n) h0
      | inl z ↦ rw (found, y, z) (take_or_wait-Quiet g c q t now s0 mq.msgs mq.waits h0 k)
    ]
  ]
]

first_of_topic-Quiet :
    (g : Grants) (c now : ℕ) (r : RecvArgs) (s : State) (l : CtxMq) (o : Option (List Msg))
    → Quiet s
    → QuietAfter (recv_from g c r now s (some (first_of_topic g c r.qname s l o)))
first_of_topic-Quiet g c now r s l none h = mq_msg_get-Quiet g c r.qname r.timeout now s h
first_of_topic-Quiet g c now r s l (some []) h = mq_msg_get-Quiet g c r.qname r.timeout now s h
first_of_topic-Quiet g c now r s l (some (m ∷ ms)) h = elim (Bool-cases (g value_site)) [
  | inl y ↦ rw y h
  | inr n ↦ rw n h
]

pub recv_process-Quiet :
    (g : Grants) (c now : ℕ) (env : Env) (s : State)
    → Quiet s
    → QuietAfter (recv_process g c now env s)
unfolding recv_process mq_msg_subscribe_get
recv_process-Quiet g c now env s h = go (recv_args env)
  where
    go : (r : Result RecvArgs) → QuietAfter (recv_with g c now s r)
    go (err e) = h
    go fault = tt
    go (ok r) = elim (Option-cases (s.ctxs c)) [
      | inl e ↦ rw e tt
      | inr (l, e) ↦ rw e (first_of_topic-Quiet g c now r s l (l.topics r.qname) h)
    ]

delete_empty-Quiet :
    (w : Wait) (s : State) (o : Option Mq) → Quiet s → QuietState (delete_empty w s o)
delete_empty-Quiet w s none h = tt
delete_empty-Quiet w s (some m) h = elim (Bool-cases (is_nil m.msgs && is_nil m.waits)) [
  | inl y ↦ rw y (put-Quiet s.mq_set w.mq none h (inl refl))
  | inr n ↦ rw n h
]

expire-Quiet : (p : ℕ) (w : Wait) (s : State) → Quiet s → QuietState (expire p w s)
unfolding expire
expire-Quiet p w s h = bind-Quiet _ _ (wait_chain_del-Quiet p w.mq (extracted p w s) h) λ s1 h1.
    bind-Quiet _ _ (ctx_mq_remove-Quiet p s1 h1) λ s2 h2.
      bind-Quiet _ _ (wait_free-Quiet p (log (continues p) s2) h2)
        λ s3 h3. delete_empty-Quiet w s3 (s3.mq_set w.mq) h3

rearm-Quiet : (set : Bool) (s : State) → Quiet s → Quiet (rearm set s)
rearm-Quiet true s h = h
rearm-Quiet false s h = h

expire_all-Quiet :
    (minimum : Minimum) (set : Bool) (now fuel : ℕ) (s : State)
    → Quiet s
    → QuietState (expire_all minimum set now fuel s)
unfolding expire_all
expire_all-Quiet minimum set now zero s h = tt
expire_all-Quiet minimum set now (suc fuel) s h =
    elim (Option-cases (minimum (timestamps s) s.mq_timeout)) [
      | inl e ↦ rw (e, expire_all) h
      | inr (p, e) ↦ elim (Option-cases (s.objects p)) [
        | inl f ↦ rw (e, f, expire_all) tt
        | inr (w, f) ↦ elim (Bool-cases (ltb now w.timestamp)) [
          | inl y ↦ rw (e, f, y, expire_all) (rearm-Quiet set s h)
          | inr n ↦
              rw (e, f, n, expire_all)
                (bind-Quiet _ _ (expire-Quiet p w s h)
                  (λ s' h'. expire_all-Quiet minimum set now fuel s' h'))
        ]
      ]
    ]

pub timeout_handler-Quiet :
    (minimum : Minimum) (set quit : Bool) (now : ℕ) (s : State)
    → Quiet s
    → QuietState (timeout_handler minimum set quit now s)
unfolding timeout_handler
timeout_handler-Quiet minimum set true now s h = h
timeout_handler-Quiet minimum set false now s h = expire_all-Quiet minimum set now _ _ h
