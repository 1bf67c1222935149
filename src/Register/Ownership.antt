-- ===== src/Register/Ownership.antt =====
-- Who owns what during a registration: the calls of Register.antt replayed against the ownership
-- rules of the interpreter. A call that uses or frees what is not held makes the replay fail.
use Prim.Native.String.{String}
use melang.Base.{
  ℕ, zero, suc, ◌+◌, ◌≤◌, ◌↔◌, ◌≡◌, refl, ap, Bool, true, false, List, [], ◌∷◌, ◌++◌, Option, none,
  some, Bool-cases, inl, inr, length, arith,
}
use melang.Register.{
  Call, func_detail_new, val_new_nil, var_new, func_detail_arg_append, val_new_func, set_member_add,
  symbol_node_join, Place, member, scope, func_detail_free, val_free, var_free, Method,
  register_member, register_params, register, register_all,
}

-- What a value holds: nothing, or a method with so many parameters.
pub data Held : Type 0 where
  nil : Held
  method : ℕ → Held

-- What a script can reach by its name: where, and a method with how many parameters.
pub record Named : Type 0 where
  pub place : Place
  pub name : String
  pub params : ℕ

-- A name with its number of parameters.
abbrev pub signature : Named → String × ℕ
signature n = (n.name, n.params)

-- The objects that only the C function's local pointers reach, and what is reachable by name.
pub record Owner : Type 0 where
  pub func : Option ℕ
  pub val : Option Held
  pub var : Option Held
  pub members : List Named

-- Nothing but the members is reachable.
abbrev pub settled : List Named → Owner
settled ms = record { func = none; val = none; var = none; members = ms }

abbrev pub named : Place → String → ℕ → Named
named place name k = record { place = place; name = name; params = k }

-- A member or a symbol needs a variable that holds a method.
abbrev add_member : Place → String → Owner → Option Held → Option Owner
add_member place name o (some (method k)) =
    some (record o { var = none; members = o.members ++ named place name k ∷ [] })
add_member place name o (some nil) = none
add_member place name o none = none

-- A parameter is a variable that holds nil, appended to a method.
abbrev append_param : Owner → Option ℕ → Option Held → Option Owner
append_param o (some k) (some nil) = some (record o { func = some (suc k); var = none })
append_param o (some k) (some (method j)) = none
append_param o (some k) none = none
append_param o none v = none

abbrev if_free {ℓ} : {A : Type ℓ} → Option A → Owner → Option Owner
if_free none o = some o
if_free (some a) o = none

abbrev if_held {ℓ} : {A : Type ℓ} → Option A → (A → Owner) → Option Owner
if_held none f = none
if_held (some a) f = some (f a)

-- `free` releases an object with all that it owns; a variable owns its value, a value its method.
abbrev pub perform : Owner → Call → Option Owner
perform o func_detail_new = if_free o.func (record o { func = some 0 })
perform o val_new_nil = if_free o.val (record o { val = some nil })
perform o (var_new name) = if_held o.val λ h. record o { val = none; var = some h }
perform o func_detail_arg_append = append_param o o.func o.var
perform o val_new_func = if_held o.func λ k. record o { func = none; val = some (method k) }
perform o (set_member_add name) = add_member member name o o.var
perform o (symbol_node_join name) = add_member scope name o o.var
perform o func_detail_free = if_held o.func λ k. record o { func = none }
perform o val_free = if_held o.val λ h. record o { val = none }
perform o var_free = if_held o.var λ h. record o { var = none }

abbrev perform_on : Option Owner → Call → Option Owner
perform_on none c = none
perform_on (some o) c = perform o c

abbrev pub replay : List Call → Option Owner → Option Owner
replay [] o = o
replay (c ∷ cs) o = replay cs (perform_on o c)

replay-append :
    (cs ds : List Call) (o : Option Owner) → replay (cs ++ ds) o ≡ replay ds (replay cs o)
replay-append [] ds o = refl
replay-append (c ∷ cs) ds o = replay-append cs ds (perform_on o c)

-- The members that a registration of `name` with `k` parameters leaves behind.
abbrev pub with_member : Bool → List Named → Place → String → ℕ → List Named
with_member true ms place name k = ms ++ named place name k ∷ []
with_member false ms place name k = ms

abbrev building : ℕ → List Named → Owner
building k ms = record { func = some k; val = none; var = none; members = ms }

register_member-settled :
    (granted : ℕ → Bool) (n k : ℕ) (place : Place) (name : String) (ms : List Named)
    → let r = register_member granted n place name in
      replay r.calls (some (building k ms)) ≡ some (settled (with_member r.done ms place name k))
unfolding register_member
register_member-settled granted n k place name ms = ground arith

register_params-settled :
    (granted : ℕ → Bool) (n k : ℕ) (place : Place) (name : String) (ps : List String)
    (ms : List Named)
    → let r = register_params granted n place name ps in
      replay r.calls (some (building k ms))
      ≡ some (settled (with_member r.done ms place name (k + length ps)))
unfolding register_params
register_params-settled granted n k place name [] ms =
    ground (arith, register_member-settled granted n k place name ms)
register_params-settled granted n k place name (p ∷ ps) ms =
    ground (arith, register_params-settled granted (n + 2) (suc k) place name ps ms)

pub register-settled :
    (granted : ℕ → Bool) (n : ℕ) (m : Method) (ms : List Named)
    → let r = register granted n m in
      replay r.calls (some (settled ms))
      ≡ some (settled (with_member r.done ms m.place m.name (length m.params)))
unfolding register
register-settled granted n m ms =
    ground (arith, register_params-settled granted (n + 1) 0 m.place m.name m.params ms)

abbrev pub entry : Method → Named
entry m = named m.place m.name (length m.params)

-- The members after the first `j` of the methods.
abbrev pub first_members : ℕ → List Method → List Named → List Named
first_members zero ms acc = acc
first_members (suc j) [] acc = acc
first_members (suc j) (m ∷ ms) acc = first_members j ms (acc ++ entry m ∷ [])

-- Whichever allocations fail, the registration of several methods leaks no object, frees none
-- twice and uses none that is not held: what is left are the names of the first `j` methods. It
-- returns 0 exactly when `j` is their number.
pub register_all-settled :
    (granted : ℕ → Bool) (n : ℕ) (ms : List Method) (acc : List Named)
    → let r = register_all granted n ms in
      (j : ℕ) × (replay r.calls (some (settled acc)) ≡ some (settled (first_members j ms acc)))
      × (j ≤ length ms)
      × ((r.done ≡ true) ↔ (j ≡ length ms))
unfolding register_all
register_all-settled granted n [] acc = (0, refl, omega arith, ((λ _. refl), (λ _. refl)))
register_all-settled granted n (m ∷ ms) acc = elim (Bool-cases (register granted n m).done) [
  | inl ok ↦
      let (j, rep, le, iff) =
        register_all-settled granted (register granted n m).next ms (acc ++ entry m ∷ []) in
      (
        suc j,
        ground (
          arith,
          register-settled granted n m acc,
          replay-append (register granted n m).calls
              (register_all granted (register granted n m).next ms).calls (some (settled acc)),
        ),
        omega arith,
        ((λ d. ap suc (iff.0 (rw ok at d))), (λ e. rw ok (iff.1 (omega arith)))),
      )
  | inr failed ↦ (
    0,
    ground (arith, register-settled granted n m acc),
    omega arith,
    ((λ d. cc), (λ e. absurd (omega arith))),
  )
]

-- A registration whose allocations are all granted succeeds.
register_params-done :
    (granted : ℕ → Bool) (n : ℕ) (place : Place) (name : String) (ps : List String)
    → ((i : ℕ) → granted i ≡ true)
    → (register_params granted n place name ps).done ≡ true
unfolding register_params register_member
register_params-done granted n place name [] h = ground (arith, h n, h (n + 1), h (n + 2))
register_params-done granted n place name (p ∷ ps) h =
    ground (arith, h n, h (n + 1), register_params-done granted (n + 2) place name ps h)

register_all-done :
    (granted : ℕ → Bool) (n : ℕ) (ms : List Method)
    → ((i : ℕ) → granted i ≡ true)
    → (register_all granted n ms).done ≡ true
unfolding register_all register
register_all-done granted n [] h = refl
register_all-done granted n (m ∷ ms) h = ground (
  arith,
  h n,
  register_params-done granted (n + 1) m.place m.name m.params h,
  register_all-done granted (register granted n m).next ms h,
)

-- When every allocation is granted, the registration returns 0 and leaves the name of each method, in
-- order, in its place and with its number of parameters, and nothing else.
pub register_all_complete :
    (granted : ℕ → Bool) (n : ℕ) (ms : List Method) (acc : List Named)
    → ((i : ℕ) → granted i ≡ true)
    → let r = register_all granted n ms in
      (r.done ≡ true)
      × (replay r.calls (some (settled acc)) ≡ some (settled (first_members (length ms) ms acc)))
register_all_complete granted n ms acc h =
    let (j, rep, le, iff) = register_all-settled granted n ms acc in
    let all = register_all-done granted n ms h in (all, rw (iff.0 all) at rep)
