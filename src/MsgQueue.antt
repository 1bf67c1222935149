-- ===== src/MsgQueue.antt =====
-- lib_src/msgqueue/mln_lang_msgqueue.h and mln_lang_msgqueue_impl.c: the state of the message
-- queues, and the helpers on its objects. A context is named by a number, and so is the wait object
-- that it allocates: a context is suspended from the moment it joins a queue until its wait object
-- is freed, so it has one at most. A doubly linked chain is a list, head first.
pub mod Args
pub mod Send
pub mod Recv
pub mod Timeout
pub mod Topics
pub mod Invariant
pub mod Delivery
pub mod Run
pub mod Keeps
pub mod Armed
pub mod Quiet
mod Tests
pub mod Methods
use melang.Base.{
  ℕ, Bool, true, false, List, [], ◌∷◌, ◌++◌, Option, none, some, ◌==◌, bytes_eq, if◌then◌else◌,
  erase,
}
use melang.Script.{Bytes, Value, Error, no_memory}

-- mln_lang_mq_msg_t: the four types of message.
pub data Msg : Type 0 where
  int : ℕ → Msg
  bool : ℕ → Msg
  real : ℕ → Msg
  string : Bytes → Msg

-- mln_lang_mq_t without its name, which is its key in the set.
pub record Mq : Type 0 where
  pub msgs : List Msg
  pub waits : List ℕ

-- mln_lang_mq_wait_t: the queue waited at, when to give up, and whether it is in the heap.
pub record Wait : Type 0 where
  pub mq : Bytes
  pub timestamp : ℕ
  pub in_heap : Bool

-- mln_lang_ctx_mq_t, the "mq" resource of a context; a topic is its chain of messages.
pub record CtxMq : Type 0 where
  pub mq_wait : Option ℕ
  pub topics : Bytes → Option (List Msg)

-- The calls into the interpreter that other contexts notice.
pub data Event : Type 0 where
  set_ret_var : ℕ → Value → Event
  suspend : ℕ → Event
  continues : ℕ → Event
  timer_set : Event
  lang_free : Event

-- The resources "mq" and "mq_timeout" of the interpreter, the "mq" resource of each context, the
-- wait objects that are allocated, the number of timers that are set, and the calls made so far.
pub record State : Type 0 where
  pub mq_set : Bytes → Option Mq
  pub mq_timeout : List ℕ
  pub ctxs : ℕ → Option CtxMq
  pub objects : ℕ → Option Wait
  pub timers : ℕ
  pub events : List Event

-- The places where memory or a timer is asked for.
pub data Site : Type 0 where
  msg_site mq_site mq_node_site nil_site wait_site value_site timer_site topic_site : Site
  topic_node_site dup_site : Site

-- Which of the requests of one call are granted.
abbrev pub Grants : Type 0
Grants = Site → Bool

-- What a function returns: a value, or NULL with a message.
pub data Answer : Type 0 where
  value : Value → Answer
  failed : Error → Answer

abbrev pub update {ℓ} : {A : Type ℓ} → (Bytes → A) → Bytes → A → Bytes → A
update f k v j = if bytes_eq k j then v else f j

abbrev pub update_at {ℓ} : {A : Type ℓ} → (ℕ → A) → ℕ → A → ℕ → A
update_at f k v j = if k == j then v else f j

abbrev pub log : Event → State → State
log e s = record s { events = s.events ++ e ∷ [] }

-- mln_lang_mq_msg_new; the types that cannot be sent take its default branch.
abbrev pub msg_new : Bool → Value → Option Msg
msg_new false v = none
msg_new true (Value.int i) = some (int i)
msg_new true (Value.bool b) = some (bool b)
msg_new true (Value.real f) = some (real f)
msg_new true (Value.string s) = some (string s)
msg_new true _ = none

-- The switch on the type of a message, by which each reader makes the value that it returns.
abbrev pub to_value : Msg → Value
to_value (int i) = Value.int i
to_value (bool b) = Value.bool b
to_value (real f) = Value.real f
to_value (string s) = Value.string s

-- mln_lang_mq_new
abbrev pub mq_new : Mq
mq_new = record { msgs = []; waits = [] }

-- mln_lang_mq_fetch
abbrev pub mq_fetch : Bytes → State → Option Mq
mq_fetch q s = s.mq_set q

abbrev pub put_mq : Bytes → Mq → State → State
put_mq q m s = record s { mq_set = update s.mq_set q (some m) }

-- A queue with neither messages nor waiters is deleted from the set.
abbrev pub delete_mq : Bytes → State → State
delete_mq q s = record s { mq_set = update s.mq_set q none }

abbrev pub is_nil {ℓ} : {A : Type ℓ} → List A → Bool
is_nil [] = true
is_nil (x ∷ xs) = false

-- mln_lang_ctx_mq_join and mln_lang_ctx_mq_remove; a context without the resource is a fault.
abbrev pub set_mq_wait : ℕ → Option ℕ → State → Option CtxMq → Option State
set_mq_wait c p s none = none
set_mq_wait c p s (some l) =
    some (record s { ctxs = update_at s.ctxs c (some (record l { mq_wait = p })) })

unfoldable pub ctx_mq_join : ℕ → ℕ → State → Option State
ctx_mq_join c p s = set_mq_wait c (some p) s (s.ctxs c)

unfoldable pub ctx_mq_remove : ℕ → State → Option State
ctx_mq_remove c s = set_mq_wait c none s (s.ctxs c)

-- mln_lang_mq_wait_free on a wait object that has its heap node; it reads the object first.
abbrev pub free_object : ℕ → State → Option Wait → Option State
free_object p s none = none
free_object p s (some w) = some (record s {
  mq_timeout = if w.in_heap then erase p s.mq_timeout else s.mq_timeout;
  objects = update_at s.objects p none;
})

unfoldable pub wait_free : ℕ → State → Option State
wait_free p s = free_object p s (s.objects p)

-- mln_lang_mq_wait_chain_del on the chain of a queue, which must be there.
abbrev pub unlink_from : ℕ → Bytes → State → Option Mq → Option State
unlink_from p q s none = none
unlink_from p q s (some m) = some (put_mq q (record m { waits = erase p m.waits }) s)

unfoldable pub wait_chain_del : ℕ → Bytes → State → Option State
wait_chain_del p q s = unlink_from p q s (s.mq_set q)

-- The queue of that name, made and inserted where the set has none.
abbrev pub found_or_new : Grants → Bytes → State → Option Mq → Option (Mq × State)
found_or_new g q s (some m) = some (m, s)
found_or_new g q s none =
    if g mq_site then (if g mq_node_site then some (mq_new, put_mq q mq_new s) else none) else none

unfoldable pub fetch_or_new : Grants → Bytes → State → Option (Mq × State)
fetch_or_new g q s = found_or_new g q s (s.mq_set q)

-- Every function that gives up says so and leaves the state as it has made it so far.
abbrev pub gives_up : State → Option (Answer × State)
gives_up s = some (failed no_memory, s)
