-- ===== src/MsgQueue/Quiet/Reached.antt =====
-- lib_src/msgqueue/mln_lang_msgqueue_impl.c: messages and waiters at one queue, in the
-- states that runs reach.
use melang.MsgQueue.Keeps.{subscribe_process-Keeps}
use melang.MsgQueue.Quiet.{Quiet-Kept, Quiet, QuietState, QuietAfter, send_process-Quiet}
use melang.Base.{ℕ, ◌≡◌, refl, subst, false, Option, some, inl, inr, Option-cases}
use melang.MsgQueue.{State, Answer}
use melang.MsgQueue.Timeout.{Minimum}
use melang.MsgQueue.Topics.{ctx_mq_free, free_wait-fails}
use melang.MsgQueue.Delivery.{Granted}
use melang.MsgQueue.Run.{
  Step, send, recv, subscribe, unsubscribe, timer, import_mq, finish, start, Reach, here, next,
}
use melang.MsgQueue.Quiet.Recv.{recv_process-Quiet, timeout_handler-Quiet}

-- Whether `send` is granted all that it asks for to reach a queue.
abbrev pub SendGranted : {minimum : Minimum} {s t : State} → Step minimum s t → Type 0
SendGranted (send g gs running waiting env a r e) = Granted g
SendGranted _ = Unit

abbrev pub SendsGranted : {minimum : Minimum} {s t : State} → Reach minimum s t → Type 0
SendsGranted here = Unit
SendsGranted (next r st) = SendsGranted r × SendGranted st

Quiet-of_after :
    (o : Option (Answer × State)) {a : Answer} {s : State}
    → QuietAfter o
    → o ≡ some (a, s)
    → Quiet s
Quiet-of_after o h e = subst (λ r. QuietAfter r) e h

Quiet-of : (o : Option State) {s : State} → QuietState o → o ≡ some s → Quiet s
Quiet-of o h e = subst (λ r. QuietState r) e h

ctx_mq_free-Quiet : (c : ℕ) (s : State) → Quiet s → QuietState (ctx_mq_free c s)
unfolding ctx_mq_free
ctx_mq_free-Quiet c s h = elim (Option-cases (s.ctxs c)) [
  | inl e ↦ rw e tt
  | inr (l, e) ↦ elim (Option-cases l.mq_wait) [
    | inl f ↦ rw (e, f) h
    | inr (p, f) ↦ rw (e, f, free_wait-fails p s (s.objects p)) tt
  ]
]

Step-Quiet :
    (minimum : Minimum) {s t : State} (st : Step minimum s t) → SendGranted st → Quiet s → Quiet t
Step-Quiet minimum (send g gs running waiting env a r e) granted h =
    Quiet-of_after _ (send_process-Quiet g gs running waiting env _ granted h) e
Step-Quiet minimum (recv g c now env a eo r e) granted h =
    Quiet-of_after _ (recv_process-Quiet g c now env _ h) e
Step-Quiet minimum (subscribe g c env a r e) granted h =
    Quiet-of_after _ (subscribe_process-Keeps Quiet Quiet-Kept g c env _ h).0 e
Step-Quiet minimum (unsubscribe g c env a r e) granted h =
    Quiet-of_after _ (subscribe_process-Keeps Quiet Quiet-Kept g c env _ h).1 e
Step-Quiet minimum (timer set now e) granted h =
    Quiet-of _ (timeout_handler-Quiet minimum set false now _ h) e
Step-Quiet minimum (import_mq c unknown) granted h = h
Step-Quiet minimum (finish c eo e) granted h = Quiet-of _ (ctx_mq_free-Quiet c _ h) e

-- In every state that any interleaving reaches in which each `send` was granted what it asked for,
-- no queue holds both a message and a waiter.
pub Reach-Quiet :
    (minimum : Minimum) {s : State} (r : Reach minimum start s) → SendsGranted r → Quiet s
Reach-Quiet minimum here h = λ q. inl refl
Reach-Quiet minimum (next r st) (before, now) =
    Step-Quiet minimum st now (Reach-Quiet minimum r before)
