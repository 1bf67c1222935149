-- ===== src/MsgQueue/Timeout.antt =====
-- lib_src/msgqueue/mln_lang_msgqueue_impl.c: the handler of the timer. The heap is Melon's: which
-- of its nodes is the least is a parameter, a function of the timestamps and of the nodes.
use melang.Base.{
  ℕ, zero, suc, ◌-◌, Bool, true, false, List, Option, none, some, ltb, ◌&&◌, if◌then◌else◌, ◌>>=◌,
  erase, length,
}
use melang.MsgQueue.{
  Mq, Wait, State, continues, timer_set, lang_free, update_at, log, delete_mq, is_nil,
  ctx_mq_remove, wait_free, wait_chain_del,
}

abbrev pub Minimum : Type 0
Minimum = (ℕ → ℕ) → List ℕ → Option ℕ

abbrev pub timestamp_of : Option Wait → ℕ
timestamp_of none = 0
timestamp_of (some w) = w.timestamp

-- The key by which mln_lang_mq_wait_cmp orders the heap.
abbrev pub timestamps : State → ℕ → ℕ
timestamps s p = timestamp_of (s.objects p)

-- mln_fheap_extract_min, and `wait->in_heap = 0`.
abbrev pub extracted : ℕ → Wait → State → State
extracted p w s = record s {
  mq_timeout = erase p s.mq_timeout;
  objects = update_at s.objects p (some (record w { in_heap = false }));
}

abbrev pub delete_empty : Wait → State → Option Mq → Option State
delete_empty w s none = none
delete_empty w s (some m) = some (if is_nil m.msgs && is_nil m.waits then delete_mq w.mq s else s)

-- The waiter `p` is done: its context goes on with the nil that `recv` gave it, and the queue goes
-- if it has neither messages nor waiters left.
unfoldable pub expire : ℕ → Wait → State → Option State
expire p w s = do
  s1 ← wait_chain_del p w.mq (extracted p w s)
  s2 ← ctx_mq_remove p s1
  s3 ← wait_free p (log (continues p) s2)
  delete_empty w s3 (s3.mq_set w.mq)

-- `set` is whether the event loop grants the timer: what mln_event_timer_set returns is not read.
abbrev pub rearm : Bool → State → State
rearm true s = log timer_set (record s { timers = suc s.timers })
rearm false s = s

-- The loop, on fuel; `none` is a fault, or the fuel has run out.
unfoldable pub expire_all : Minimum → Bool → ℕ → ℕ → State → Option State
expire_all minimum set now zero s = none
expire_all minimum set now (suc fuel) s = elim (minimum (timestamps s) s.mq_timeout) [
  | none ↦ some s
  | some p ↦ elim (s.objects p) [
    | none ↦ none
    | some w ↦
        let next = expire p w s >>= expire_all minimum set now fuel in
        if ltb now w.timestamp then some (rearm set s) else next
  ]
]

-- mln_lang_msgqueue_timeout_handler at the time `now`. Each round takes a node off the heap.
unfoldable pub timeout_handler : Minimum → Bool → Bool → ℕ → State → Option State
timeout_handler minimum set quit now s =
    let s1 = record s { timers = s.timers - 1 } in
    if quit
    then some (log lang_free s1)
    else expire_all minimum set now (suc (length s.mq_timeout)) s1
