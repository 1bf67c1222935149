-- ===== src/MsgQueue/Quiet.antt =====
-- lib_src/msgqueue/mln_lang_msgqueue_impl.c: messages and waiters at one queue.
pub mod Recv
pub mod Reached
use melang.MsgQueue.Keeps.{InState, InAfter, Kept, with_nil-Keeps, send_process-Keeps}
use melang.Base.{
  ℕ, ◌+◌, ◌<◌, ◌≡◌, refl, sym, Bool, true, false, List, [], ◌∷◌, ◌++◌, Option, none, some, ◌⊎◌, inl,
  inr, Bool-cases, Option-cases, erase, arith, if◌then◌else◌, bytes_eq, bytes_eq_refl, ◌>>=◌,
}
use melang.Script.{Bytes, Value, Env, Result, ok, err, fault}
use melang.MsgQueue.{
  Msg, Mq, Wait, CtxMq, State, Grants, Answer, msg_site, nil_site, value_site, mq_site,
  mq_node_site, update_at, update, put_mq, msg_new, mq_new, ctx_mq_remove, ctx_mq_join, wait_free,
  wait_chain_del, fetch_or_new, found_or_new, log, set_ret_var, continues, to_value,
}
use melang.MsgQueue.Args.{SendArgs, send_args}
use melang.MsgQueue.Send.{
  wake, hand_out, with_nil, enqueue, send_msg, mq_msg_set, set_topics, wake_subscriber,
  to_subscriber, add_to_topic, to_topic, to_context, done_with, broadcast_ctx, broadcast_to,
  unless_failed, answer_nil, mq_msg_broadcast, copied, send_with, send_process,
}
use melang.MsgQueue.Invariant.{waits_of, msgs_of}
use melang.MsgQueue.Delivery.{Granted}

-- No messages, or no waiters.
abbrev pub IsQuiet : Option Mq → Type 0
IsQuiet o = (msgs_of o ≡ []) ⊎ (waits_of o ≡ [])

abbrev pub Quiet : State → Type 0
Quiet s = (q : Bytes) → IsQuiet (s.mq_set q)

-- The same of the state that a call returns, if it does.
abbrev pub QuietState : Option State → Type 0
QuietState = InState Quiet

abbrev pub QuietAfter {ℓ} : {A : Type ℓ} → Option (A × State) → Type 0
QuietAfter = InAfter Quiet

pub put-Quiet :
    (f : Bytes → Option Mq) (q : Bytes) (o : Option Mq)
    → ((r : Bytes) → IsQuiet (f r))
    → IsQuiet o
    → (r : Bytes) → IsQuiet (update f q o r)
put-Quiet f q o h k r = elim (Bool-cases (bytes_eq q r)) [ inl e ↦ rw e k | inr e ↦ rw e (h r) ]

put_twice :
    (f : Bytes → Option Mq) (q : Bytes) (o o' : Option Mq)
    → ((r : Bytes) → IsQuiet (f r))
    → IsQuiet o'
    → (r : Bytes) → IsQuiet (update (update f q o) q o' r)
put_twice f q o o' h k r = elim (Bool-cases (bytes_eq q r)) [ inl e ↦ rw e k | inr e ↦ rw e (h r) ]

-- A queue that loses a waiter.
erased :
    (p : ℕ) (mq : Mq) → IsQuiet (some mq) → IsQuiet (some (record mq { waits = erase p mq.waits }))
erased p mq (inl e) = inl e
erased p mq (inr e) = inr (rw e refl)

pub wait_chain_del-Quiet :
    (p : ℕ) (q : Bytes) (s : State) → Quiet s → QuietState (wait_chain_del p q s)
unfolding wait_chain_del
wait_chain_del-Quiet p q s h = elim (Option-cases (s.mq_set q)) [
  | inl e ↦ rw e tt
  | inr (mq, e) ↦ rw e (put-Quiet s.mq_set q _ h (erased p mq (rw e at (h q))))
]

pub bind-Quiet :
    (o : Option State) (f : State → Option State)
    → QuietState o
    → ((s : State) → Quiet s → QuietState (f s))
    → QuietState (o >>= f)
bind-Quiet none f h k = tt
bind-Quiet (some s) f h k = k s h

pub ctx_mq_remove-Quiet : (c : ℕ) (s : State) → Quiet s → QuietState (ctx_mq_remove c s)
unfolding ctx_mq_remove
ctx_mq_remove-Quiet c s h = elim (Option-cases (s.ctxs c)) [ inl e ↦ rw e tt | inr (l, e) ↦ rw e h ]

pub wait_free-Quiet : (p : ℕ) (s : State) → Quiet s → QuietState (wait_free p s)
unfolding wait_free
wait_free-Quiet p s h = elim (Option-cases (s.objects p)) [ inl e ↦ rw e tt | inr (w, e) ↦ rw e h ]

pub wake-Quiet : (q : Bytes) (p : ℕ) (m : Msg) (s : State) → Quiet s → QuietState (wake q p m s)
unfolding wake
wake-Quiet q p m s h =
    bind-Quiet _ _ (ctx_mq_remove-Quiet p (log (set_ret_var p (to_value m)) s) h) λ s2 h2.
      bind-Quiet _ _ (wait_chain_del-Quiet p q (log (continues p) s2) h2)
        λ s3 h3. wait_free-Quiet p s3 h3

-- The queue that `send` and `recv` find or make, quiet as it was.
pub found_or_new-Quiet :
    (g : Grants) (q : Bytes) (s : State) (o : Option Mq)
    → Quiet s
    → s.mq_set q ≡ o
    → (found_or_new g q s o ≡ none)
      ⊎ ((mq : Mq) × (s0 : State) × (found_or_new g q s o ≡ some (mq, s0))
          × Quiet s0
          × IsQuiet (some mq))
found_or_new-Quiet g q s (some m) h e = inr (m, s, refl, h, rw e at (h q))
found_or_new-Quiet g q s none h e = elim (Bool-cases (g mq_site)) [
  | inr n ↦ inl (rw n refl)
  | inl y ↦ elim (Bool-cases (g mq_node_site)) [
    | inr n ↦ inl (rw (y, n) refl)
    | inl z ↦ inr (
      mq_new,
      put_mq q mq_new s,
      rw (y, z) refl,
      put-Quiet s.mq_set q (some mq_new) h (inl refl),
      inl refl,
    )
  ]
]

-- With the message behind, and handed out to the first waiter if there is one.
hand_out-Quiet :
    (g : Grants) (q : Bytes) (m : Msg) (ms : List Msg) (ps : List ℕ) (s : State)
    → Granted g
    → Quiet s
    → IsQuiet (some (record { msgs = ms; waits = ps }))
    → QuietState
        (hand_out g q (put_mq q (record { msgs = ms ++ m ∷ []; waits = ps }) s) (ms ++ m ∷ []) ps)
hand_out-Quiet g q m ms [] s granted h k =
    put-Quiet s.mq_set q (some (record { msgs = ms ++ m ∷ []; waits = [] })) h (inr refl)
hand_out-Quiet g q m [] (p ∷ ps) s granted h k = rw (granted value_site) (
    wake-Quiet q p m _
      (put_twice s.mq_set q _ (some (record { msgs = []; waits = p ∷ ps })) h (inl refl)))
hand_out-Quiet g q m (n ∷ ms) (p ∷ ps) s granted h (inl e) = absurd (ground (arith, e))
hand_out-Quiet g q m (n ∷ ms) (p ∷ ps) s granted h (inr e) = absurd (ground (arith, e))

mq_msg_set-Quiet :
    (g : Grants) (q : Bytes) (v : Value) (s : State)
    → Granted g
    → Quiet s
    → QuietAfter (mq_msg_set g q v s)
unfolding mq_msg_set fetch_or_new enqueue
mq_msg_set-Quiet g q v s granted h = elim (Option-cases (msg_new (g msg_site) v)) [
  | inl e ↦ rw e h
  | inr (m, e) ↦ elim (found_or_new-Quiet g q s (s.mq_set q) h refl) [
    | inl none_found ↦ rw (e, none_found) h
    | inr (mq, s0, found, h0, k) ↦
        rw (e, found, granted nil_site)
          (with_nil-Keeps Quiet _ (hand_out-Quiet g q m mq.msgs mq.waits s0 granted h0 k))
  ]
]

pub Quiet-Kept : Kept Quiet
Quiet-Kept = record { by_ctxs = λ f s h. h; by_wake = wake-Quiet }

pub send_process-Quiet :
    (g : Grants) (gs : ℕ → Grants) (running waiting : List ℕ) (env : Env) (s : State)
    → Granted g
    → Quiet s
    → QuietAfter (send_process g gs running waiting env s)
send_process-Quiet g gs running waiting env s granted h =
    send_process-Keeps Quiet Quiet-Kept g gs running waiting env s
      (λ q v. mq_msg_set-Quiet g q v s granted h) h
