-- ===== src/Register/Import.antt =====
-- The import of a library, as `init` of every lib_src/*/mln_lang_*.c writes it out: an object is
-- created, the library registers its methods on it, and the object is freed when that fails. Some
-- libraries create a resource in between, which is left to them.
use mathlib.Core.List.{map, append-nil, append_assoc}
use melang.Base.{
  ℕ, ◌↔◌, ◌≡◌, sym, Bool, true, false, not, ◌&&◌, List, [], ◌∷◌, ◌++◌, some, length, if◌then◌else◌,
  arith, Bool-cases, inl, inr,
}
use melang.Register.{Call, Method, register_all}
use melang.Register.Ownership.{
  Named, settled, replay, entry, first_members, register_all-settled, register_all_complete,
}

-- The calls of the registrations, and whether the object was created, freed and returned.
pub record Import : Type 0 where
  pub calls : List Call
  pub created : Bool
  pub freed : Bool
  pub returned : Bool

-- The first allocation is the object's.
pub init : (ℕ → Bool) → List Method → Import
init granted ms =
    let r = register_all granted 1 ms in
    if granted 0
    then record { calls = r.calls; created = true; freed = not r.done; returned = r.done }
    else record { calls = []; created = false; freed = false; returned = false }

-- Whichever allocations fail, an import leaks no object of the registrations, frees none twice and
-- uses none that is not held, and the library's object, once created, is either returned or freed,
-- never both. `init` returns it exactly when it was created and has got every method.
init-settled :
    (granted : ℕ → Bool) (ms : List Method)
    → let r = init granted ms in
      (j : ℕ) × (replay r.calls (some (settled [])) ≡ some (settled (first_members j ms [])))
      × (r.freed ≡ (r.created && not r.returned))
      × ((r.returned ≡ true) ↔ ((r.created ≡ true) × (j ≡ length ms)))
unfolding init
init-settled granted ms = elim (Bool-cases (granted 0)) [
  | inl got ↦
      let (j, rep, le, iff) = register_all-settled granted 1 ms [] in
      (
        j,
        ground (arith, rep),
        ground arith,
        ((λ d. (ground arith, iff.0 (rw got at d))), (λ e. rw got (iff.1 (e.1)))),
      )
  | inr refused ↦
      (0, ground arith, ground arith, ((λ d. absurd (ground arith)), (λ e. absurd (ground arith))))
]

-- The first of the methods are all of them when there are as many.
pub first_members_lem :
    (ms : List Method) (acc : List Named) → first_members (length ms) ms acc ≡ acc ++ map entry ms
first_members_lem [] acc = sym (append-nil acc)
first_members_lem (m ∷ ms) acc = simp (first_members_lem ms (acc ++ entry m ∷ []), append_assoc)

-- An import for which every allocation is granted returns the object with each method of the list,
-- in order and with its number of parameters.
pub init_complete :
    (granted : ℕ → Bool) (ms : List Method)
    → ((i : ℕ) → granted i ≡ true)
    → ((init granted ms).returned ≡ true)
      × (replay (init granted ms).calls (some (settled [])) ≡ some (settled (map entry ms)))
unfolding init
init_complete granted ms all =
    let (done, rep) = register_all_complete granted 1 ms [] all in
    (ground (arith, all 0, done), ground (arith, all 0, rep, first_members_lem ms []))
