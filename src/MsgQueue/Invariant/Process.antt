-- ===== src/MsgQueue/Invariant/Process.antt =====
-- lib_src/msgqueue/mln_lang_msgqueue_impl.c: the functions that scripts call keep the invariant,
-- whatever their arguments are.
use melang.Base.{
  ℕ, ◌≡◌, true, List, [], ◌∷◌, ◌++◌, Option, none, some, inl, inr, Bool-cases, Option-cases, arith,
  ltb, ◌^◌, ◌&&◌,
}
use melang.Script.{
  Bytes, Value, nil, int, string, Symbol, var, other, Env, Result, ok, err, fault, symbol, value_of,
  string_of, ◌>>=◌,
}
use melang.MsgQueue.{Msg, CtxMq, State, Grants, nil_site, value_site, topic_site, topic_node_site}
use melang.MsgQueue.Args.{
  SendArgs, send_args, RecvArgs, recv_args, qname_arg, sendable, flag, timeout_of,
}
use melang.MsgQueue.Send.{send_process, send_with, copied}
use melang.MsgQueue.Recv.{
  recv_process, recv_with, recv_from, mq_msg_subscribe_get, Subscribed, got, nothing, failure,
  first_of_topic,
}
use melang.MsgQueue.Topics.{
  subscribe_process, unsubscribe_process, subscribe_with, subscribe_new, unsubscribe_with,
}
use melang.MsgQueue.Invariant.{Inv, is_some, topics-Inv}
use melang.MsgQueue.Invariant.Send.{Safe, AllRegistered, mq_msg_set-Safe, mq_msg_broadcast-Safe}
use melang.MsgQueue.Invariant.Recv.{mq_msg_get-Safe}

send_with-Safe :
    (g : Grants) (gs : ℕ → Grants) (running waiting : List ℕ) (s : State) (a : SendArgs)
    → Inv s
    → AllRegistered s (running ++ waiting)
    → Safe (send_with g gs running waiting s (ok a))
send_with-Safe g gs running waiting s a v r = elim (Bool-cases (copied g a.msg)) [
  | inr f ↦ rw f v
  | inl c ↦ elim (Bool-cases a.as_topic) [
    | inl topic ↦ rw (c, topic) (mq_msg_broadcast-Safe g gs running waiting a.qname a.msg s v r)
    | inr queue ↦ rw (c, queue) (mq_msg_set-Safe g a.qname a.msg s v)
  ]
]

-- No arguments make the reading of them fault.
abbrev Reads {ℓ} : {A : Type ℓ} → Result A → Type 0
Reads (ok a) = Unit
Reads (err e) = Unit
Reads fault = ⊥

>>=-Reads {ℓ κ} :
    {A : Type ℓ} {B : Type κ} (m : Result A) (f : A → Result B)
    → Reads m
    → ((a : A) → Reads (f a))
    → Reads (m >>= f)
>>=-Reads (ok a) f r h = h a
>>=-Reads (err e) f r h = tt
>>=-Reads fault f r h = r

symbol-Reads : (n : ℕ) (o : Option Symbol) → Reads (symbol n o)
symbol-Reads n none = tt
symbol-Reads n (some s) = tt

value_of-Reads : (n : ℕ) (s : Symbol) → Reads (value_of n s)
value_of-Reads n (var v) = tt
value_of-Reads n other = tt

string_of-Reads : (n : ℕ) (v : Value) → Reads (string_of n v)
string_of-Reads n (string s) = tt
string_of-Reads n _ = tt

qname_arg-Reads : (env : Env) → Reads (qname_arg env)
qname_arg-Reads env =
    >>=-Reads (symbol 1 (env "qname")) _ (symbol-Reads 1 _)
      λ sym. >>=-Reads (value_of 1 sym) _ (value_of-Reads 1 sym) λ v. string_of-Reads 1 v

sendable-Reads : (v : Value) → Reads (sendable v)
sendable-Reads (int i) = tt
sendable-Reads _ = tt

flag-Reads : (v : Value) → Reads (flag v)
flag-Reads nil = tt
flag-Reads _ = tt

timeout_of-Reads : (v : Value) → Reads (timeout_of v)
timeout_of-Reads nil = tt
timeout_of-Reads (int i) = elim (Bool-cases (ltb 0 i && ltb i (2 ^ 63))) [
  | inl y ↦ rw y tt
  | inr n ↦ rw n tt
]
timeout_of-Reads _ = tt

send_args-Reads : (env : Env) → Reads (send_args env)
unfolding send_args
send_args-Reads env = >>=-Reads (qname_arg env) _ (qname_arg-Reads env) λ q.
    >>=-Reads (symbol 2 (env "msg")) _ (symbol-Reads 2 _) λ sym.
      >>=-Reads (value_of 2 sym) _ (value_of-Reads 2 sym) λ v.
        >>=-Reads (sendable v) _ (sendable-Reads v) λ m.
          >>=-Reads (symbol 3 (env "asTopic")) _ (symbol-Reads 3 _) λ sym3.
            >>=-Reads (value_of 3 sym3) _ (value_of-Reads 3 sym3)
              λ v3. >>=-Reads (flag v3) _ (flag-Reads v3) λ b. tt

recv_args-Reads : (env : Env) → Reads (recv_args env)
unfolding recv_args
recv_args-Reads env = >>=-Reads (qname_arg env) _ (qname_arg-Reads env) λ q.
    >>=-Reads (symbol 2 (env "timeout")) _ (symbol-Reads 2 _) λ sym.
      >>=-Reads (value_of 2 sym) _ (value_of-Reads 2 sym)
        λ v. >>=-Reads (timeout_of v) _ (timeout_of-Reads v) λ t. tt

-- From a state with the invariant, where all contexts that a broadcast visits have imported the
-- library, `send` returns whatever its arguments and whichever requests for memory fail: it
-- follows no dangling pointer, and it keeps the invariant.
pub send_process-Safe :
    (g : Grants) (gs : ℕ → Grants) (running waiting : List ℕ) (env : Env) (s : State)
    → Inv s
    → AllRegistered s (running ++ waiting)
    → Safe (send_process g gs running waiting env s)
unfolding send_process
send_process-Safe g gs running waiting env s v r = go (send_args env) (send_args-Reads env)
  where
    go : (a : Result SendArgs) → Reads a → Safe (send_with g gs running waiting s a)
    go (ok a) h = send_with-Safe g gs running waiting s a v r
    go (err e) h = v
    go fault h = h

-- The invariant where a message of a topic was taken.
abbrev SafeSubscribed : Option Subscribed → Type 0
SafeSubscribed none = ⊥
SafeSubscribed (some (got x s)) = Inv s
SafeSubscribed (some nothing) = Unit
SafeSubscribed (some failure) = Unit

first_of_topic-Safe :
    (g : Grants) (c : ℕ) (q : Bytes) (s : State) (l : CtxMq) (t : Option (List Msg))
    → Inv s
    → s.ctxs c ≡ some l
    → SafeSubscribed (some (first_of_topic g c q s l t))
first_of_topic-Safe g c q s l none v e = tt
first_of_topic-Safe g c q s l (some []) v e = tt
first_of_topic-Safe g c q s l (some (m ∷ ms)) v e = elim (Bool-cases (g value_site)) [
  | inl y ↦ rw y (topics-Inv c l _ s v e)
  | inr n ↦ rw n tt
]

mq_msg_subscribe_get-Safe :
    (g : Grants) (c : ℕ) (q : Bytes) (s : State)
    → Inv s
    → is_some (s.ctxs c) ≡ true
    → SafeSubscribed (mq_msg_subscribe_get g c q s)
unfolding mq_msg_subscribe_get
mq_msg_subscribe_get-Safe g c q s v r = elim (Option-cases (s.ctxs c)) [
  | inl e ↦ absurd (ground (arith, r))
  | inr (l, e) ↦ rw e (first_of_topic-Safe g c q s l (l.topics q) v e)
]

recv_from-Safe :
    (g : Grants) (c now : ℕ) (s : State) (a : RecvArgs) (o : Option Subscribed)
    → Inv s
    → s.objects c ≡ none
    → is_some (s.ctxs c) ≡ true
    → SafeSubscribed o
    → Safe (recv_from g c a now s o)
recv_from-Safe g c now s a none v eo r h = h
recv_from-Safe g c now s a (some (got x s')) v eo r h = h
recv_from-Safe g c now s a (some failure) v eo r h = v
recv_from-Safe g c now s a (some nothing) v eo r h =
    mq_msg_get-Safe g c a.qname a.timeout now s v eo r

-- From a state with the invariant, for a context that has imported the library and does not wait,
-- `recv` returns whatever its arguments and whichever requests fail: it follows no dangling
-- pointer, and it keeps the invariant.
pub recv_process-Safe :
    (g : Grants) (c now : ℕ) (env : Env) (s : State)
    → Inv s
    → s.objects c ≡ none
    → is_some (s.ctxs c) ≡ true
    → Safe (recv_process g c now env s)
unfolding recv_process
recv_process-Safe g c now env s v eo r = go (recv_args env) (recv_args-Reads env)
  where
    go : (a : Result RecvArgs) → Reads a → Safe (recv_with g c now s a)
    go (ok a) h = recv_from-Safe g c now s a _ v eo r (mq_msg_subscribe_get-Safe g c a.qname s v r)
    go (err e) h = v
    go fault h = h

subscribe_new-Safe :
    (g : Grants) (c : ℕ) (q : Bytes) (s : State) (l : CtxMq) (t : Option (List Msg))
    → Inv s
    → s.ctxs c ≡ some l
    → Safe (subscribe_new g c q s l t)
subscribe_new-Safe g c q s l (some ms) v e = v
subscribe_new-Safe g c q s l none v e = elim (Bool-cases (g topic_site)) [
  | inr n ↦ rw n v
  | inl y ↦ elim (Bool-cases (g topic_node_site)) [
    | inr n ↦ rw (y, n) v
    | inl z ↦ rw (y, z) (topics-Inv c l _ s v e)
  ]
]

-- From a state with the invariant, for a context that has imported the library, `subscribe` and
-- `unsubscribe` return whatever their arguments and whichever requests fail: they follow no
-- dangling pointer, and they keep the invariant.
pub subscribe_process-Safe :
    (g : Grants) (c : ℕ) (env : Env) (s : State)
    → Inv s
    → is_some (s.ctxs c) ≡ true
    → Safe (subscribe_process g c env s) × Safe (unsubscribe_process g c env s)
unfolding subscribe_process unsubscribe_process
subscribe_process-Safe g c env s v r = go (qname_arg env) (qname_arg-Reads env)
  where
    registered : (l : CtxMq) × (s.ctxs c ≡ some l)
    registered = elim (Option-cases (s.ctxs c)) [
      | inl e ↦ absurd (ground (arith, r))
      | inr found ↦ found
    ]

    go :
        (a : Result Bytes)
        → Reads a
        → Safe (subscribe_with g c s a) × Safe (unsubscribe_with g c s a)
    go (err e) h = (v, v)
    go fault h = absurd h
    go (ok q) h = elim (Bool-cases (g nil_site)) [
      | inr n ↦ rw n (v, v)
      | inl y ↦
          let (l, e) = registered in
          rw (y, e) (subscribe_new-Safe g c q s l (l.topics q) v e, topics-Inv c l _ s v e)
    ]
