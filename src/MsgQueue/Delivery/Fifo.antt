-- ===== src/MsgQueue/Delivery/Fifo.antt =====
-- lib_src/msgqueue/mln_lang_msgqueue_impl.c: `send` and `recv` together, as operations
-- on the values that a queue holds.
use melang.Base.{
  ℕ, zero, suc, ◌≡◌, refl, sym, ap, ◌∙◌, subst, true, List, [], ◌∷◌, ◌++◌, Option, none, some,
  bytes_eq_refl, arith, All, length, map, ◌>>=◌,
}
use mathlib.Core.List.{map-append, append-nil, append_assoc}
use melang.Script.{Bytes, Value}
use melang.MsgQueue.{
  Msg, State, Grants, nil_site, value_site, wait_site, Answer, value, msg_new, to_value, put_mq,
  delete_mq,
}
use melang.MsgQueue.Send.{mq_msg_set}
use melang.MsgQueue.Recv.{mq_msg_get, get_from, take_first}
use melang.MsgQueue.Invariant.{Inv, waits_of, msgs_of, put_mq-Inv, delete_mq-Inv}
use melang.MsgQueue.Invariant.Send.{Safe, mq_msg_set-Safe}
use melang.MsgQueue.Delivery.{Granted, Granted-Fetched, mq_msg_set-queues}

-- The values that can be sent.
abbrev pub Sendable : Value → Type 0
Sendable x = (m : Msg) × (msg_new true x ≡ some m)

-- A message carries the value that it was made from.
pub to_value-msg_new : (x : Value) (m : Msg) → msg_new true x ≡ some m → to_value m ≡ x
to_value-msg_new (Value.int i) m h = ground arith
to_value-msg_new (Value.bool i) m h = ground arith
to_value-msg_new (Value.real i) m h = ground arith
to_value-msg_new (Value.string i) m h = ground arith
to_value-msg_new Value.nil m h = cc
to_value-msg_new (Value.obj i) m h = cc
to_value-msg_new (Value.func i) m h = cc
to_value-msg_new (Value.array i) m h = cc

Inv-of_Safe :
    (o : Option (Answer × State)) (a : Answer) (s : State) → o ≡ some (a, s) → Safe o → Inv s
Inv-of_Safe none a s e v = absurd v
Inv-of_Safe (some (b, t)) a s e v = subst (λ r. Safe r) e v

-- The values that stand in a queue, the first to be received first.
abbrev pub contents : Bytes → State → List Value
contents q s = map to_value (msgs_of (s.mq_set q))

-- Nobody waits at the queue.
abbrev pub NoWaiter : Bytes → State → Type 0
NoWaiter q s = waits_of (s.mq_set q) ≡ []

-- `send` as an operation on the contents: from a state with the invariant, where memory is granted
-- and nobody waits at the queue, it returns nil and puts a value of the four types behind the
-- contents; still nobody waits there, and the invariant holds.
send-contents :
    (g : Grants) (q : Bytes) (x : Value) (s : State)
    → Inv s
    → Granted g
    → Sendable x
    → NoWaiter q s
    → (s' : State) × (mq_msg_set g q x s ≡ some (value Value.nil, s'))
      × (contents q s' ≡ contents q s ++ x ∷ [])
      × NoWaiter q s'
      × Inv s'
send-contents g q x s v ok (m, new) idle =
    let (s', run, each, _) = mq_msg_set-queues g q x m s v ok new idle in
    let at : s'.mq_set q ≡ some (record { msgs = msgs_of (s.mq_set q) ++ m ∷ []; waits = [] }) =
      rw (bytes_eq_refl q) at (each q) in
    (
      s',
      run,
      rw (at, map-append, to_value-msg_new x m new) refl,
      rw at refl,
      Inv-of_Safe _ _ s' run (mq_msg_set-Safe g q x s v),
    )

-- `msgs` and `waits` of a queue that is there, as the branch of `recv` on them reads them.
take_first_lem :
    (g : Grants) (q : Bytes) (m : Msg) (ms : List Msg) (s : State)
    → Inv s
    → Granted g
    → NoWaiter q s
    → (s' : State) × (take_first g q m ms s ≡ some (value (to_value m), s'))
      × (msgs_of (s'.mq_set q) ≡ ms)
      × NoWaiter q s'
      × Inv s'
      × (s'.events ≡ s.events)
take_first_lem g q m [] s v ok idle = (
  delete_mq q s,
  ground (arith, ok value_site),
  rw (bytes_eq_refl q) refl,
  rw (bytes_eq_refl q) refl,
  delete_mq-Inv q s v idle,
  refl,
)
take_first_lem g q m (n ∷ ms) s v ok idle = (
  put_mq q (record { msgs = n ∷ ms; waits = [] }) s,
  ground (arith, ok value_site),
  rw (bytes_eq_refl q) refl,
  rw (bytes_eq_refl q) refl,
  put_mq-Inv q _ s v (sym idle),
  refl,
)

get_first :
    (g : Grants) (c : ℕ) (q : Bytes) (t : Option ℕ) (now : ℕ) (m : Msg) (ms : List Msg) (s : State)
    → Inv s
    → Granted g
    → NoWaiter q s
    → msgs_of (s.mq_set q) ≡ m ∷ ms
    → (s' : State) × (mq_msg_get g c q t now s ≡ some (value (to_value m), s'))
      × (msgs_of (s'.mq_set q) ≡ ms)
      × NoWaiter q s'
      × Inv s'
      × (s'.events ≡ s.events)
unfolding mq_msg_get get_from
get_first g c q t now m ms s v ok idle first =
    let (mq, s0, found, f) = Granted-Fetched g q s v ok in
    let ew : mq.waits ≡ [] = f.same_waits ∙ idle in
    let em : mq.msgs ≡ m ∷ ms = f.same_msgs ∙ first in
    let (s', run, rest, idle', v', same) = take_first_lem g q m ms s0 f.inv ok (rw f.there ew) in
    (s', rw (found, ok nil_site, ok wait_site, ew, em) run, rest, idle', v', same ∙ f.same_events)

-- `recv` as an operation on the contents: from a state with the invariant, where memory is granted
-- and nobody waits at the queue, it returns the first value of contents that are not empty at
-- once, leaves the others, and suspends nobody; the invariant holds.
recv-contents :
    (g : Grants) (c : ℕ) (q : Bytes) (t : Option ℕ) (now : ℕ) (x : Value) (xs : List Value)
    (s : State)
    → Inv s
    → Granted g
    → NoWaiter q s
    → contents q s ≡ x ∷ xs
    → (s' : State) × (mq_msg_get g c q t now s ≡ some (value x, s'))
      × (contents q s' ≡ xs)
      × NoWaiter q s'
      × Inv s'
      × (s'.events ≡ s.events)
recv-contents g c q t now x xs s v ok idle h = go (msgs_of (s.mq_set q)) refl
  where
    go :
        (ms : List Msg)
        → msgs_of (s.mq_set q) ≡ ms
        → (s' : State) × (mq_msg_get g c q t now s ≡ some (value x, s'))
          × (contents q s' ≡ xs)
          × NoWaiter q s'
          × Inv s'
          × (s'.events ≡ s.events)
    go [] e = absurd (ground (arith, ap (map to_value) e))
    go (m ∷ ms) e =
        let (s', run, rest, idle', v', same) = get_first g c q t now m ms s v ok idle e in
        let both : to_value m ∷ map to_value ms ≡ x ∷ xs = sym (ap (map to_value) e) ∙ h in
        let head : to_value m ≡ x = ground (arith, both) in
        let tail : map to_value ms ≡ xs = ground (arith, both) in
        (s', rw head at run, rw (rest) tail, idle', v', same)

-- All of a list sent, and so many values received, by callers that may differ.
abbrev pub send_all : Grants → Bytes → List Value → State → Option State
send_all g q [] s = some s
send_all g q (x ∷ xs) s = mq_msg_set g q x s >>= λ (a, s'). send_all g q xs s'

abbrev pub answers :
    Option (Answer × State) → (State → Option (List Answer × State)) → Option (List Answer × State)
answers none next = none
answers (some (a, s)) next = next s >>= λ (as', s'). some (a ∷ as', s')

abbrev pub recv_all : Grants → ℕ → Bytes → Option ℕ → ℕ → ℕ → State → Option (List Answer × State)
recv_all g c q t now zero s = some ([], s)
recv_all g c q t now (suc n) s = answers (mq_msg_get g c q t now s) (recv_all g c q t now n)

send_all-contents :
    (g : Grants) (q : Bytes) (xs : List Value) (s : State)
    → Inv s
    → Granted g
    → All Sendable xs
    → NoWaiter q s
    → (s' : State) × (send_all g q xs s ≡ some s')
      × (contents q s' ≡ contents q s ++ xs)
      × NoWaiter q s'
      × Inv s'
send_all-contents g q [] s v ok hs idle = (s, refl, sym (append-nil _), idle, v)
send_all-contents g q (x ∷ xs) s v ok (h, hs) idle =
    let (s1, run, at, idle1, v1) = send-contents g q x s v ok h idle in
    let (s2, runs, at2, idle2, v2) = send_all-contents g q xs s1 v1 ok hs idle1 in
    (s2, rw run runs, rw (at2, at) (append_assoc (contents q s) (x ∷ []) xs), idle2, v2)

recv_all-contents :
    (g : Grants) (c : ℕ) (q : Bytes) (t : Option ℕ) (now : ℕ) (xs : List Value) (s : State)
    → Inv s
    → Granted g
    → NoWaiter q s
    → contents q s ≡ xs
    → (s' : State) × (recv_all g c q t now (length xs) s ≡ some (map value xs, s'))
      × (contents q s' ≡ [])
recv_all-contents g c q t now [] s v ok idle e = (s, refl, e)
recv_all-contents g c q t now (x ∷ xs) s v ok idle e =
    let (s1, run, at, idle1, v1, _) = recv-contents g c q t now x xs s v ok idle e in
    let (s2, runs, at2) = recv_all-contents g c q t now xs s1 v1 ok idle1 at in
    (s2, rw (run, runs) refl, at2)

-- First in, first out: from a state with the invariant, where memory is granted and nobody waits
-- at the queue, values of the four types that are sent are received in the order in which they
-- were sent, behind those that the queue held, and the queue is then empty.
pub recv_all-send_all :
    (g g' : Grants) (c : ℕ) (q : Bytes) (t : Option ℕ) (now : ℕ) (xs : List Value) (s : State)
    → Inv s
    → Granted g
    → Granted g'
    → All Sendable xs
    → NoWaiter q s
    → (s1 s2 : State) × (send_all g q xs s ≡ some s1)
      × (recv_all g' c q t now (length (contents q s ++ xs)) s1
          ≡ some (map value (contents q s ++ xs), s2))
      × (contents q s2 ≡ [])
recv_all-send_all g g' c q t now xs s v ok ok' hs idle =
    let (s1, runs, at, idle1, v1) = send_all-contents g q xs s v ok hs idle in
    let (s2, recvs, empty) =
      recv_all-contents g' c q t now (contents q s ++ xs) s1 v1 ok' idle1 at in
    (s1, s2, runs, recvs, empty)
