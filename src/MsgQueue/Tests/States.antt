-- ===== src/MsgQueue/Tests/States.antt =====
-- States of the message queue: the interpreter at its start, one in which the contexts 1 and 2 have
-- imported the library, and some in which context 1 waits.
use text.Mathlib.Text.{◌==◌ as str_eq}
use melang.Base.{refl, true, false, List, [], ◌∷◌, none, some, if◌then◌else◌, bytes_eq, arith}
use melang.Script.{Bytes, Value, Env, var}
use melang.MsgQueue.{Msg, Wait, CtxMq, State, Grants, mq_new, update, update_at, suspend, timer_set}
use melang.MsgQueue.Topics.{ctx_mq_new}
use melang.MsgQueue.Invariant.{Inv}
use melang.MsgQueue.Invariant.Recv.{waiting_state, waiting-Inv}
use melang.MsgQueue.Run.{start}

abbrev pub q : Bytes
q = b'q' ∷ []

abbrev pub all : Grants
all _ = true

abbrev pub at_q : Env
at_q name = if str_eq name "qname" then some (var (Value.string q)) else some (var (Value.int 5))

-- The library imported by the contexts 1 and 2, of which 2 subscribes to "q".
abbrev pub subscriber : CtxMq
subscriber = record { mq_wait = none; topics = update (λ _. none) q (some []) }

abbrev pub imported : State
imported = record start {
  mq_set = update start.mq_set q (some mq_new);
  ctxs = update_at (update_at start.ctxs 2 (some subscriber)) 1 (some ctx_mq_new);
}

pub imported-Inv : Inv imported
imported-Inv = record {
  chained = λ r c. ground arith;
  heaped = λ c. refl;
  joined = λ c. ground arith;
}

abbrev pub wait_5 : Wait
wait_5 = record { mq = q; timestamp = 5; in_heap = true }

abbrev pub waiting : State
waiting = waiting_state 1 q mq_new ctx_mq_new wait_5 imported

pub waiting-Inv_1 : Inv waiting
unfolding bytes_eq
waiting-Inv_1 = waiting-Inv 1 mq_new ctx_mq_new wait_5 imported imported-Inv refl refl

-- From the start: context 1 imports the library and waits.
abbrev pub with_library : State
with_library = record start { ctxs = update_at start.ctxs 1 (some ctx_mq_new) }

abbrev pub suspended_1 : State
suspended_1 = waiting_state 1 q mq_new ctx_mq_new wait_5 (record with_library {
  mq_set = update start.mq_set q (some mq_new);
  timers = 1;
  events = timer_set ∷ suspend 1 ∷ [];
})

pub start-Inv : Inv start
start-Inv = record { chained = λ r c. refl; heaped = λ c. refl; joined = λ c. refl }

abbrev pub seven_two : List Value
seven_two = Value.int 7 ∷ Value.bool 1 ∷ []

-- "q" with one message.
abbrev pub filled : State
filled = record start {
  mq_set = update start.mq_set q (some (record { msgs = Msg.int 7 ∷ []; waits = [] }));
}

pub filled-Inv : Inv filled
filled-Inv = record { chained = λ r c. ground arith; heaped = λ c. refl; joined = λ c. refl }

-- Context 1 subscribes to "q" and waits at "r".
abbrev pub elsewhere : Wait
elsewhere = record { mq = b'r' ∷ []; timestamp = 0; in_heap = false }

abbrev pub at_r : State
at_r = waiting_state 1 (b'r' ∷ []) mq_new subscriber elsewhere (record start {
  mq_set = update start.mq_set (b'r' ∷ []) (some mq_new);
  ctxs = update_at start.ctxs 1 (some subscriber);
})

pub at_r-Inv : Inv at_r
unfolding bytes_eq
at_r-Inv =
    waiting-Inv 1 mq_new subscriber elsewhere
      (record start {
        mq_set = update start.mq_set (b'r' ∷ []) (some mq_new);
        ctxs = update_at start.ctxs 1 (some subscriber);
      })
      (record { chained = λ r c. ground arith; heaped = λ c. refl; joined = λ c. ground arith })
      refl refl
