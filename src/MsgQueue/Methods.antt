-- ===== src/MsgQueue/Methods.antt =====
-- lib_src/msgqueue/mln_lang_msgqueue_impl.c: the methods that the message queue registers, in the
-- order of mln_lang_msgqueue_impl, once its resources are there.
pub mod Members
use melang.Base.{ℕ, Bool, List, [], ◌∷◌}
use melang.Register.{Method, member, scope, Outcome, register_all}

abbrev pub mq_send : Method
mq_send = record { place = member; name = "send"; params = "qname" ∷ "msg" ∷ "asTopic" ∷ [] }

abbrev pub mq_recv : Method
mq_recv = record { place = member; name = "recv"; params = "qname" ∷ "timeout" ∷ [] }

abbrev pub topic_subscribe : Method
topic_subscribe = record { place = member; name = "subscribe"; params = "qname" ∷ [] }

abbrev pub topic_unsubscribe : Method
topic_unsubscribe = record { place = member; name = "unsubscribe"; params = "qname" ∷ [] }

abbrev pub mq_methods : List Method
mq_methods = mq_send ∷ mq_recv ∷ topic_subscribe ∷ topic_unsubscribe ∷ []

-- The registrations of mln_lang_msgqueue_impl.
abbrev pub msgqueue_impl : (ℕ → Bool) → Outcome
msgqueue_impl granted = register_all granted 0 mq_methods
