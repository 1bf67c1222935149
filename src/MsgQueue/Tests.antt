-- ===== src/MsgQueue/Tests.antt =====
-- The queues on concrete states.
mod Least
mod States
mod Topics
mod Runs
use text.Mathlib.Text.{◌==◌ as str_eq}
use melang.Base.{
  ℕ, ◌≡◌, refl, Bool, true, false, List, [], ◌∷◌, ◌++◌, Option, none, some, ltb, if◌then◌else◌,
  count, bytes_eq, All, length, map, arith, ◌≤◌, ◌↔◌,
}
use melang.Script.{Bytes, Value, Env, Result, ok, var}
use melang.MsgQueue.{
  Msg, Mq, Wait, CtxMq, State, Event, Grants, Answer, value, mq_new, update, update_at, suspend,
  timer_set, set_ret_var, continues, fetch_or_new, ctx_mq_join, msg_new,
}
use melang.MsgQueue.Args.{recv_args}
use melang.MsgQueue.Send.{mq_msg_set, mq_msg_broadcast, send_process, broadcast_ctx}
use melang.MsgQueue.Recv.{recv_process, mq_msg_subscribe_get, mq_msg_get, get_from}
use melang.MsgQueue.Timeout.{timeout_handler, rearm, expire_all}
use melang.MsgQueue.Topics.{ctx_mq_new, ctx_mq_free, subscribe_process, unsubscribe_process}
use melang.MsgQueue.Invariant.{Inv, msgs_of, topic_of}
use melang.MsgQueue.Invariant.Send.{Safe}
use melang.MsgQueue.Invariant.Recv.{waiting_state, waiting-Inv}
use melang.MsgQueue.Invariant.Timeout.{Swept, timeout_handler-Swept}
use melang.MsgQueue.Invariant.Process.{send_process-Safe, recv_process-Safe}
use melang.MsgQueue.Delivery.{mq_msg_set-wakes}
use melang.MsgQueue.Delivery.Fifo.{contents, send_all, recv_all, recv_all-send_all}
use melang.MsgQueue.Delivery.Topic.{
  IsIdle, extended, broadcast_ctx-wakes_any, mq_msg_broadcast-reaches,
}
use melang.MsgQueue.Delivery.TopicFifo.{Holds, broadcast_all, recv_times, recv_times-broadcast_all}
use melang.MsgQueue.Methods.{mq_methods, msgqueue_impl}
use melang.MsgQueue.Methods.Members.{msgqueue_impl-settled}
use melang.Register.Ownership.{settled, replay, first_members}
use melang.MsgQueue.Run.{start, Reach, here, next, Step, import_mq, recv, timer, Reach-Inv}
use melang.MsgQueue.Armed.{Armed}
use melang.MsgQueue.Armed.Reached.{Reach-Armed}
use melang.MsgQueue.Tests.Least.{least_of, least_of-IsMinimum}
use melang.MsgQueue.Tests.States.{
  q, all, at_q, subscriber, imported, imported-Inv, wait_5, waiting, waiting-Inv_1, with_library,
  suspended_1, start-Inv, seven_two, filled, filled-Inv, elsewhere, at_r, at_r-Inv,
}

recv_all-send_all_example :
    (s1 s2 : State) × (send_all all q seven_two start ≡ some s1)
    × (recv_all all 1 q none 0 2 s1 ≡ some (map value seven_two, s2))
    × (contents q s2 ≡ [])
recv_all-send_all_example =
    recv_all-send_all all all 1 q none 0 seven_two start start-Inv (λ k. refl) (λ k. refl)
      ((Msg.int 7, refl), ((Msg.bool 1, refl), tt)) refl

mq_msg_set-wakes_example :
    (s' : State) × (mq_msg_set all q (Value.int 7) waiting ≡ some (value Value.nil, s'))
    × (s'.mq_set q ≡ some (record { msgs = []; waits = [] }))
    × (s'.events ≡ set_ret_var 1 (Value.int 7) ∷ continues 1 ∷ [])
    × (s'.objects 1 ≡ none)
unfolding bytes_eq
mq_msg_set-wakes_example =
    mq_msg_set-wakes all q (Value.int 7) (Msg.int 7) (Msg.int 7) [] 1 [] waiting waiting-Inv_1
      (λ k. refl) refl refl refl
