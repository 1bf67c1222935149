-- ===== src/MsgQueue/Armed/Reached.antt =====
-- lib_src/msgqueue/mln_lang_msgqueue_impl.c: the timer in the states that runs reach.
use melang.MsgQueue.Keeps.{subscribe_process-Keeps}
use melang.MsgQueue.Armed.{Armed-Kept, Armed, ArmedState, ArmedAfter, send_process-Armed}
use melang.Base.{
  ℕ, ◌≡◌, refl, subst, sym, ◌∙◌, Bool, true, false, ◌&&◌, Option, some, inl, inr, arith,
  Option-cases,
}
use melang.MsgQueue.{State, Answer}
use melang.MsgQueue.Timeout.{Minimum, timeout_handler}
use melang.MsgQueue.Topics.{ctx_mq_free, free_wait-fails}
use melang.MsgQueue.Invariant.{Inv}
use melang.MsgQueue.Invariant.Timeout.{IsMinimum, timeout_handler-Swept}
use melang.MsgQueue.Run.{
  Step, send, recv, subscribe, unsubscribe, timer, import_mq, finish, start, Reach, here, next,
  Reach-Inv,
}
use melang.MsgQueue.Armed.Recv.{recv_process-Armed}

-- Whether the timers that the handler asks for are granted.
abbrev pub timer_granted : {minimum : Minimum} {s t : State} → Step minimum s t → Bool
timer_granted (timer set now e) = set
timer_granted _ = true

abbrev pub timers_granted : {minimum : Minimum} {s t : State} → Reach minimum s t → Bool
timers_granted here = true
timers_granted (next r st) = timers_granted r && timer_granted st

Armed-of_after :
    (o : Option (Answer × State)) {a : Answer} {s : State}
    → ArmedAfter o
    → o ≡ some (a, s)
    → Armed s
Armed-of_after o h e = subst (λ r. ArmedAfter r) e h

Armed-of : (o : Option State) {s : State} → ArmedState o → o ≡ some s → Armed s
Armed-of o h e = subst (λ r. ArmedState r) e h

ctx_mq_free-Armed : (c : ℕ) (s : State) → Armed s → ArmedState (ctx_mq_free c s)
unfolding ctx_mq_free
ctx_mq_free-Armed c s a = elim (Option-cases (s.ctxs c)) [
  | inl e ↦ rw e tt
  | inr (l, e) ↦ elim (Option-cases l.mq_wait) [
    | inl f ↦ rw (e, f) a
    | inr (p, f) ↦ rw (e, f, free_wait-fails p s (s.objects p)) tt
  ]
]

module _ (minimum : Minimum) (least : IsMinimum minimum) where
  timer-Armed :
      (set : Bool) (now : ℕ) (s t : State)
      → Inv s
      → timeout_handler minimum set false now s ≡ some t
      → set ≡ true
      → Armed t
  timer-Armed set now s t v e h =
      let (t', run, x) = timeout_handler-Swept minimum least set now s v in
      elim x.armed [
        | inl refused ↦ absurd (ground (arith, refused, h))
        | inr armed ↦ Armed-of (some t') armed (sym run ∙ e)
      ]

  Step-Armed :
      {s t : State} (st : Step minimum s t) → Inv s → timer_granted st ≡ true → Armed s → Armed t
  Step-Armed (send g gs running waiting env a r e) v h armed =
      Armed-of_after _ (send_process-Armed g gs running waiting env _ armed) e
  Step-Armed (recv g c now env a eo r e) v h armed =
      Armed-of_after _ (recv_process-Armed g c now env _ armed) e
  Step-Armed (subscribe g c env a r e) v h armed =
      Armed-of_after _ (subscribe_process-Keeps Armed Armed-Kept g c env _ armed).0 e
  Step-Armed (unsubscribe g c env a r e) v h armed =
      Armed-of_after _ (subscribe_process-Keeps Armed Armed-Kept g c env _ armed).1 e
  Step-Armed (timer set now e) v h armed = timer-Armed set now _ _ v e h
  Step-Armed (import_mq c h0) v h armed = armed
  Step-Armed (finish c eo e) v h armed = Armed-of _ (ctx_mq_free-Armed c _ armed) e

both : (a b : Bool) → (a && b) ≡ true → (a ≡ true) × (b ≡ true)
both true b h = (refl, h)
both false b h = absurd (ground (arith, h))

-- In every state that any interleaving reaches in which the event loop granted the handler each
-- timer that it asked for, a timer is set, or nobody waits with a timeout.
pub Reach-Armed :
    (minimum : Minimum)
    → IsMinimum minimum
    → {s : State} (r : Reach minimum start s) → timers_granted r ≡ true
    → Armed s
Reach-Armed minimum least here h = inl refl
Reach-Armed minimum least (next r st) h =
    let (before, now) = both (timers_granted r) (timer_granted st) h in
    Step-Armed minimum least st (Reach-Inv minimum least r) now (Reach-Armed minimum least r before)
