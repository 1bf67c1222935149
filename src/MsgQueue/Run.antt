-- ===== src/MsgQueue/Run.antt =====
-- lib_src/msgqueue/mln_lang_msgqueue_impl.c: the calls of scripts and of the event loop as the steps
-- of one system, and the states that they reach.
use melang.Base.{
  ℕ, ◌≡◌, refl, sym, subst, ◌∙◌, Bool, true, false, List, [], ◌++◌, Option, none, some, inl, inr,
  Bool-cases, arith,
}
use melang.Script.{Env}
use melang.MsgQueue.{State, Grants, Answer, update_at}
use melang.MsgQueue.Send.{send_process}
use melang.MsgQueue.Recv.{recv_process}
use melang.MsgQueue.Timeout.{Minimum, timeout_handler}
use melang.MsgQueue.Topics.{ctx_mq_new, subscribe_process, unsubscribe_process, ctx_mq_free}
use melang.MsgQueue.Invariant.{Inv, is_some}
use melang.MsgQueue.Delivery.Topic.{ctx_mq_free-Inv}
use melang.MsgQueue.Invariant.Send.{Safe, AllRegistered}
use melang.MsgQueue.Invariant.Timeout.{IsMinimum, timeout_handler-Swept}
use melang.MsgQueue.Invariant.Process.{send_process-Safe, recv_process-Safe, subscribe_process-Safe}

-- The steps of the system: a script's call, which returns, the timer, an import, and the end of a
-- context that does not wait. A call is made by a context that runs, so by one that does not wait,
-- and where all contexts that a broadcast may visit have imported the library.
pub data Step (minimum : Minimum) : State → State → Type 0 where
  send :
      (g : Grants) (gs : ℕ → Grants) (running waiting : List ℕ) (env : Env) (a : Answer)
      {s t : State}
      → AllRegistered s (running ++ waiting)
      → send_process g gs running waiting env s ≡ some (a, t)
      → Step minimum s t
  recv :
      (g : Grants) (c now : ℕ) (env : Env) (a : Answer) {s t : State}
      → s.objects c ≡ none
      → is_some (s.ctxs c) ≡ true
      → recv_process g c now env s ≡ some (a, t)
      → Step minimum s t
  subscribe :
      (g : Grants) (c : ℕ) (env : Env) (a : Answer) {s t : State}
      → is_some (s.ctxs c) ≡ true
      → subscribe_process g c env s ≡ some (a, t)
      → Step minimum s t
  unsubscribe :
      (g : Grants) (c : ℕ) (env : Env) (a : Answer) {s t : State}
      → is_some (s.ctxs c) ≡ true
      → unsubscribe_process g c env s ≡ some (a, t)
      → Step minimum s t
  timer :
      (set : Bool) (now : ℕ) {s t : State}
      → timeout_handler minimum set false now s ≡ some t
      → Step minimum s t
  import_mq :
      (c : ℕ) {s : State}
      → is_some (s.ctxs c) ≡ false
      → Step minimum s (record s { ctxs = update_at s.ctxs c (some ctx_mq_new) })
  finish : (c : ℕ) {s t : State} → s.objects c ≡ none → ctx_mq_free c s ≡ some t → Step minimum s t

Inv-of_Safe :
    (o : Option (Answer × State)) {a : Answer} {s : State} → Safe o → o ≡ some (a, s) → Inv s
Inv-of_Safe none v e = absurd v
Inv-of_Safe (some (b, t)) v e = subst (λ r. Safe r) e v

abbrev StateInv : Option State → Type 0
StateInv none = ⊥
StateInv (some s) = Inv s

Inv-of_some : (o : Option State) {s t : State} → o ≡ some s → o ≡ some t → Inv s → Inv t
Inv-of_some o p q v = subst (λ r. StateInv r) (sym p ∙ q) v

import-Inv :
    (c : ℕ) (s : State)
    → Inv s
    → is_some (s.ctxs c) ≡ false
    → Inv (record s { ctxs = update_at s.ctxs c (some ctx_mq_new) })
import-Inv c s v h = record {
  chained = v.chained;
  heaped = v.heaped;
  joined = λ d. ground (arith, v.joined d);
}

finish-Inv : (c : ℕ) (s t : State) → Inv s → s.objects c ≡ none → ctx_mq_free c s ≡ some t → Inv t
finish-Inv c s t v eo e = elim (Bool-cases (is_some (s.ctxs c))) [
  | inr unknown ↦ absurd (unfold ctx_mq_free in ground (arith, e, unknown))
  | inl known ↦ let (t', e', v') = ctx_mq_free-Inv c s v known eo in Inv-of_some _ e' e v'
]

module _ (minimum : Minimum) (least : IsMinimum minimum) where
  pub Step-Inv : {s t : State} → Step minimum s t → Inv s → Inv t
  Step-Inv (send g gs running waiting env a r e) v =
      Inv-of_Safe _ (send_process-Safe g gs running waiting env _ v r) e
  Step-Inv (recv g c now env a eo r e) v = Inv-of_Safe _ (recv_process-Safe g c now env _ v eo r) e
  Step-Inv (subscribe g c env a r e) v = Inv-of_Safe _ (subscribe_process-Safe g c env _ v r).0 e
  Step-Inv (unsubscribe g c env a r e) v = Inv-of_Safe _ (subscribe_process-Safe g c env _ v r).1 e
  Step-Inv (timer set now e) v =
      let (t', e', x) = timeout_handler-Swept minimum least set now _ v in Inv-of_some _ e' e x.inv
  Step-Inv (import_mq c h) v = import-Inv c _ v h
  Step-Inv (finish c eo e) v = finish-Inv c _ _ v eo e

-- The state of an interpreter that has just registered its two sets.
abbrev pub start : State
start = record {
  mq_set = λ _. none;
  mq_timeout = [];
  ctxs = λ _. none;
  objects = λ _. none;
  timers = 0;
  events = [];
}

pub data Reach (minimum : Minimum) (s : State) : State → Type 0 where
  here : Reach minimum s s
  next : {t u : State} → Reach minimum s t → Step minimum t u → Reach minimum s u

-- In every state that is reached by any interleaving of calls of contexts that have the library
-- and do not wait, timers, imports and ends of contexts that do not wait, where broadcasts meet
-- only contexts with the library: each wait object stands once in the chain of its queue and once
-- in the heap if it has a timeout, its context points at it, and nothing points at an object that
-- has been freed.
pub Reach-Inv :
    (minimum : Minimum) → IsMinimum minimum → {s : State} → Reach minimum start s → Inv s
Reach-Inv minimum least here = record {
  chained = λ q c. refl;
  heaped = λ c. refl;
  joined = λ c. refl;
}
Reach-Inv minimum least (next r st) = Step-Inv minimum least st (Reach-Inv minimum least r)
