-- ===== src/MsgQueue/Tests/Topics.antt =====
-- Broadcasts and topics on concrete states.
use melang.Base.{
  ℕ, ◌≡◌, refl, true, [], ◌∷◌, none, some, ltb, if◌then◌else◌, count, bytes_eq, All, map, arith,
}
use melang.Script.{Value, ok}
use melang.MsgQueue.{Msg, State, value, set_ret_var, continues}
use melang.MsgQueue.Args.{recv_args}
use melang.MsgQueue.Send.{mq_msg_broadcast, broadcast_ctx}
use melang.MsgQueue.Invariant.{topic_of}
use melang.MsgQueue.Delivery.Topic.{
  IsIdle, extended, broadcast_ctx-wakes_any, mq_msg_broadcast-reaches,
}
use melang.MsgQueue.Delivery.TopicFifo.{Holds, broadcast_all, recv_times, recv_times-broadcast_all}
use melang.MsgQueue.Tests.States.{q, all, at_q, subscriber, imported, seven_two, at_r, at_r-Inv}

mq_msg_broadcast-reaches_example :
    (s' : State) × (mq_msg_broadcast all (λ c. all) (1 ∷ []) (2 ∷ []) q (Value.int 7) imported
      ≡ some (value Value.nil, s'))
    × ((d : ℕ)
        → topic_of q (s'.ctxs d) ≡ (
            if ltb 0 (count d (1 ∷ 2 ∷ []))
            then extended (Msg.int 7) (topic_of q (imported.ctxs d))
            else topic_of q (imported.ctxs d)))
    × All (IsIdle s') (1 ∷ 2 ∷ [])
mq_msg_broadcast-reaches_example =
    mq_msg_broadcast-reaches all (λ c. all) (1 ∷ []) (2 ∷ []) q (Value.int 7) (Msg.int 7) imported
      (λ k. refl) (λ c k. refl) refl ((refl, refl), ((refl, refl), tt)) (λ d. ground arith)

broadcast_ctx-wakes_any_example :
    (s' : State) × (broadcast_ctx all 1 q (Value.int 7) at_r ≡ some (true, s'))
    × (s'.events ≡ set_ret_var 1 (Value.int 7) ∷ continues 1 ∷ [])
    × (s'.objects 1 ≡ none)
    × (topic_of q (s'.ctxs 1) ≡ some [])
unfolding bytes_eq
broadcast_ctx-wakes_any_example =
    broadcast_ctx-wakes_any all 1 1 q (Value.int 7) (Msg.int 7) []
      (record subscriber { mq_wait = some 1 }) at_r at_r-Inv (λ k. refl) refl refl refl refl

args_q : recv_args at_q ≡ ok (record { qname = q; timeout = some 5 })
unfolding recv_args
args_q = refl

-- Context 2 subscribes, context 1 does not.
recv_times-broadcast_all_example :
    (s1 s2 : State) × (broadcast_all all (λ c. all) (1 ∷ []) (2 ∷ []) q seven_two imported
      ≡ some s1)
    × (recv_times all 2 0 at_q 2 s1 ≡ some (map value seven_two, s2))
    × Holds s2 2 q []
unfolding bytes_eq
recv_times-broadcast_all_example =
    recv_times-broadcast_all all (λ c. all) (1 ∷ []) (2 ∷ []) (λ k. refl) (λ c k. refl)
      (λ d. ground arith) 2 (omega arith) all 0 at_q (record { qname = q; timeout = some 5 })
      seven_two [] imported (λ k. refl) args_q ((Msg.int 7, refl), ((Msg.bool 1, refl), tt))
      ((refl, refl), ((refl, refl), tt)) ([], refl, refl)
