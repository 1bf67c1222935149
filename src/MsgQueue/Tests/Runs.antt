-- ===== src/MsgQueue/Tests/Runs.antt =====
-- Timers, ends of contexts and runs on concrete states.
use text.Mathlib.Text.{◌==◌ as str_eq}
use melang.MsgQueue.{
  put_mq, log, continues, set_ret_var, Msg, ctx_mq_remove, wait_chain_del, wait_free, State, value,
  fetch_or_new, ctx_mq_join,
}
use melang.MsgQueue.Args.{send_args, recv_args}
use melang.MsgQueue.Send.{send_process, mq_msg_set, enqueue, wake}
use melang.MsgQueue.Invariant.{released, Inv}
use melang.MsgQueue.Quiet.{Quiet}
use melang.MsgQueue.Quiet.Reached.{Reach-Quiet}
use melang.MsgQueue.Run.{send, start, Reach, here, next, import_mq, recv, timer, Reach-Inv}
use melang.Base.{bytes_eq, if◌then◌else◌, [], ◌∷◌, ◌≡◌, refl, true, false, some}
use melang.MsgQueue.Tests.States.{
  q, all, at_q, wait_5, waiting, waiting-Inv_1, with_library, suspended_1,
}
use melang.Script.{Env, var, Value}
use melang.MsgQueue.Recv.{recv_process, mq_msg_subscribe_get, mq_msg_get, get_from}
use melang.MsgQueue.Timeout.{timeout_handler, rearm, expire_all}
use melang.MsgQueue.Topics.{ctx_mq_new}
use melang.MsgQueue.Invariant.Timeout.{Swept, timeout_handler-Swept}
use melang.MsgQueue.Armed.{Armed}
use melang.MsgQueue.Armed.Reached.{Reach-Armed}
use melang.MsgQueue.Tests.Least.{least_of, least_of-IsMinimum}

timeout_handler-Swept_example :
    (s' : State) × (timeout_handler least_of true false 7 waiting ≡ some s')
    × Swept true 7 waiting s'
timeout_handler-Swept_example =
    timeout_handler-Swept least_of least_of-IsMinimum true 7 waiting waiting-Inv_1

recv_1 : recv_process all 1 0 at_q with_library ≡ some (value Value.nil, suspended_1)
unfolding recv_process recv_args mq_msg_subscribe_get mq_msg_get get_from fetch_or_new ctx_mq_join
recv_1 = refl

abbrev reached : Reach least_of start suspended_1
reached = next (next here (import_mq 1 refl)) (recv all 1 0 at_q (value Value.nil) refl refl recv_1)

Reach-Inv_example : Inv suspended_1
Reach-Inv_example = Reach-Inv least_of least_of-IsMinimum reached

-- The timer goes off at 3, too early, and is set again.
abbrev rearmed : State
rearmed = rearm true (record suspended_1 { timers = 0 })

timer_3 : timeout_handler least_of true false 3 suspended_1 ≡ some rearmed
unfolding timeout_handler expire_all
timer_3 = refl

Reach-Armed_example : Armed rearmed
Reach-Armed_example =
    Reach-Armed least_of least_of-IsMinimum (next reached (timer true 3 timer_3)) refl

-- Another context sends 7 to "q", and context 1 gets it.
abbrev send_7 : Env
send_7 name =
    if str_eq name "qname"
    then some (var (Value.string q))
    else (if str_eq name "msg" then some (var (Value.int 7)) else some (var Value.nil))

abbrev served : State
served =
    released q 1 (record { msgs = []; waits = 1 ∷ [] }) (record ctx_mq_new { mq_wait = some 1 })
      wait_5
      (log (continues 1) (
        log (set_ret_var 1 (Value.int 7)) (
          put_mq q (record { msgs = []; waits = 1 ∷ [] })
            (put_mq q (record { msgs = Msg.int 7 ∷ []; waits = 1 ∷ [] }) suspended_1))))

sent_7 : send_process all (λ c. all) [] (1 ∷ []) send_7 suspended_1 ≡ some (value Value.nil, served)
unfolding send_process send_args mq_msg_set fetch_or_new enqueue wake ctx_mq_remove wait_chain_del
    wait_free bytes_eq
sent_7 = refl

Reach-Quiet_example : Quiet served
Reach-Quiet_example =
    Reach-Quiet least_of
      (next reached (send all (λ c. all) [] (1 ∷ []) send_7 (value Value.nil) (refl, tt) sent_7))
      (((tt, tt), tt), λ k. refl)
