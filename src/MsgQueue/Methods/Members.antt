-- ===== src/MsgQueue/Methods/Members.antt =====
-- What is left of the registration of the message queue's methods.
use melang.Base.{ℕ, ◌≡◌, ◌≤◌, ◌↔◌, Bool, true, [], some}
use melang.Register.Ownership.{settled, replay, first_members, register_all-settled}
use melang.MsgQueue.Methods.{msgqueue_impl, mq_methods}

-- Whichever allocations fail, the registrations of mln_lang_msgqueue_impl leak no object, free
-- none twice and use none that is not held: what is left are the names of the first methods, all 4
-- exactly when they return 0.
pub msgqueue_impl-settled :
    (granted : ℕ → Bool)
    → (j : ℕ) × (replay (msgqueue_impl granted).calls (some (settled []))
        ≡ some (settled (first_members j mq_methods [])))
      × (j ≤ 4)
      × (((msgqueue_impl granted).done ≡ true) ↔ (j ≡ 4))
msgqueue_impl-settled granted = register_all-settled granted 0 mq_methods []
