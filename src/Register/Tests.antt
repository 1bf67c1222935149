-- ===== src/Register/Tests.antt =====
-- The registration of two methods, with all memory granted and with a request refused.
use melang.Base.{ℕ, ◌≡◌, ◌≤◌, ◌↔◌, Bool, true, List, [], ◌∷◌, some, ltb}
use melang.Register.{Method, member, register_all}
use melang.Register.Ownership.{settled, replay, first_members, register_all-settled}

abbrev two_methods : List Method
two_methods =
    record { place = member; name = "strlen"; params = "s" ∷ [] }
    ∷ record { place = member; name = "s2b"; params = "s" ∷ "type" ∷ [] }
    ∷ []

abbrev eight_granted : ℕ → Bool
eight_granted i = ltb i 8

register_all-settled_example :
    (j : ℕ) × (replay (register_all eight_granted 0 two_methods).calls (some (settled []))
      ≡ some (settled (first_members j two_methods [])))
    × (j ≤ 2)
    × (((register_all eight_granted 0 two_methods).done ≡ true) ↔ (j ≡ 2))
register_all-settled_example = register_all-settled eight_granted 0 two_methods []
