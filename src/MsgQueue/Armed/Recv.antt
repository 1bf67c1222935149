-- ===== src/MsgQueue/Armed/Recv.antt =====
-- lib_src/msgqueue/mln_lang_msgqueue_impl.c: the timer in `recv`.
use melang.Base.{
  ==_refl, ℕ, ◌+◌, ◌%◌, ◌^◌, ◌<◌, ◌≡◌, refl, true, false, List, [], ◌∷◌, Option, none, some, inl,
  inr, Bool-cases, Option-cases, arith,
}
use melang.Script.{Bytes, Env, Result, ok, err, fault}
use melang.MsgQueue.{
  Msg, Mq, CtxMq, State, Grants, nil_site, value_site, wait_site, timer_site, is_nil, ctx_mq_join,
  fetch_or_new,
}
use melang.MsgQueue.Args.{RecvArgs, recv_args}
use melang.MsgQueue.Recv.{
  first_of_topic, mq_msg_subscribe_get, take_first, suspended, with_timeout, waiting_for,
  take_or_wait, get_from, mq_msg_get, recv_from, recv_with, recv_process,
}
use melang.MsgQueue.Invariant.Recv.{undone_lem}
use melang.MsgQueue.Armed.{Armed, ArmedAfter, found_or_new-Armed}

suspended-Armed : (c : ℕ) (s : State) → Armed s → ArmedAfter (suspended c s)
unfolding ctx_mq_join
suspended-Armed c s a = elim (Option-cases (s.ctxs c)) [ inl e ↦ rw e tt | inr (l, e) ↦ rw e a ]

is_nil→eq : (xs : List ℕ) → is_nil xs ≡ true → xs ≡ []
is_nil→eq [] h = refl
is_nil→eq (x ∷ xs) h = cc

timer_there : (s : State) → Armed s → is_nil s.mq_timeout ≡ false → 0 < s.timers
timer_there s (inr set) h = set
timer_there s (inl empty) h = absurd (ground (arith, empty, h))

module _ (g : Grants) (c : ℕ) (q : Bytes) (mq : Mq) (s : State) (a : Armed s) where
  with_timeout-Armed : (at : ℕ) → ArmedAfter (with_timeout g c q mq at s)
  with_timeout-Armed at = elim (Bool-cases (is_nil s.mq_timeout)) [
    | inr n ↦ rw n (suspended-Armed c _ (inr (timer_there s a n)))
    | inl first ↦ elim (Bool-cases (g timer_site)) [
      | inl y ↦ rw (first, y) (suspended-Armed c _ (inr (omega arith)))
      | inr n ↦
          rw
            (first, n, undone_lem c q mq (record { mq = q; timestamp = at; in_heap = true }) s refl)
            (inl (rw (==_refl c) (is_nil→eq _ first)))
    ]
  ]

  waiting_for-Armed : (now : ℕ) (t : Option ℕ) → ArmedAfter (waiting_for g c q mq now s t)
  waiting_for-Armed now none = suspended-Armed c _ a
  waiting_for-Armed now (some t) = with_timeout-Armed ((now + t) % 2 ^ 64)

take_first-Armed :
    (g : Grants) (q : Bytes) (m : Msg) (ms : List Msg) (s : State)
    → Armed s
    → ArmedAfter (take_first g q m ms s)
take_first-Armed g q m [] s a = elim (Bool-cases (g value_site)) [ inl y ↦ rw y a | inr n ↦ rw n a ]
take_first-Armed g q m (n ∷ ms) s a = elim (Bool-cases (g value_site)) [
  | inl y ↦ rw y a
  | inr n ↦ rw n a
]

take_or_wait-Armed :
    (g : Grants) (c : ℕ) (q : Bytes) (t : Option ℕ) (now : ℕ) (s : State) (ms : List Msg)
    (ps : List ℕ)
    → Armed s
    → ArmedAfter (take_or_wait g c q t now s ms ps)
take_or_wait-Armed g c q t now s (m ∷ ms) [] a = take_first-Armed g q m ms s a
take_or_wait-Armed g c q t now s [] [] a =
    waiting_for-Armed g c q (record { msgs = []; waits = [] }) s a now t
take_or_wait-Armed g c q t now s [] (p ∷ ps) a =
    waiting_for-Armed g c q (record { msgs = []; waits = p ∷ ps }) s a now t
take_or_wait-Armed g c q t now s (m ∷ ms) (p ∷ ps) a =
    waiting_for-Armed g c q (record { msgs = m ∷ ms; waits = p ∷ ps }) s a now t

get_from-Armed :
    (g : Grants) (c : ℕ) (q : Bytes) (t : Option ℕ) (now : ℕ) (s : State) (o : Option (Mq × State))
    → Armed s
    → ArmedAfter o
    → ArmedAfter (get_from g c q t now s o)
unfolding get_from
get_from-Armed g c q t now s none a b = a
get_from-Armed g c q t now s (some (mq, s0)) a b = elim (Bool-cases (g nil_site)) [
  | inr n ↦ rw n b
  | inl y ↦ elim (Bool-cases (g wait_site)) [
    | inr n ↦ rw (y, n) b
    | inl z ↦ rw (y, z) (take_or_wait-Armed g c q t now s0 mq.msgs mq.waits b)
  ]
]

mq_msg_get-Armed :
    (g : Grants) (c : ℕ) (q : Bytes) (t : Option ℕ) (now : ℕ) (s : State)
    → Armed s
    → ArmedAfter (mq_msg_get g c q t now s)
unfolding mq_msg_get fetch_or_new
mq_msg_get-Armed g c q t now s a =
    get_from-Armed g c q t now s _ a (found_or_new-Armed g q s (s.mq_set q) a)

first_of_topic-Armed :
    (g : Grants) (c now : ℕ) (r : RecvArgs) (s : State) (l : CtxMq) (o : Option (List Msg))
    → Armed s
    → ArmedAfter (recv_from g c r now s (some (first_of_topic g c r.qname s l o)))
first_of_topic-Armed g c now r s l none a = mq_msg_get-Armed g c r.qname r.timeout now s a
first_of_topic-Armed g c now r s l (some []) a = mq_msg_get-Armed g c r.qname r.timeout now s a
first_of_topic-Armed g c now r s l (some (m ∷ ms)) a = elim (Bool-cases (g value_site)) [
  | inl y ↦ rw y a
  | inr n ↦ rw n a
]

pub recv_process-Armed :
    (g : Grants) (c now : ℕ) (env : Env) (s : State)
    → Armed s
    → ArmedAfter (recv_process g c now env s)
unfolding recv_process mq_msg_subscribe_get
recv_process-Armed g c now env s a = go (recv_args env)
  where
    go : (r : Result RecvArgs) → ArmedAfter (recv_with g c now s r)
    go (err e) = a
    go fault = tt
    go (ok r) = elim (Option-cases (s.ctxs c)) [
      | inl e ↦ rw e tt
      | inr (l, e) ↦ rw e (first_of_topic-Armed g c now r s l (l.topics r.qname) a)
    ]
