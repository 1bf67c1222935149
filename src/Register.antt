-- ===== src/Register.antt =====
-- The registration of a library's methods, as every lib_src/*/mln_lang_*.c writes it out: the calls
-- of the interpreter that create a method, its parameters and the member, with each early return
-- on "No memory." and what it frees. The calls themselves belong to Melon; the model records which
-- ones are made, and takes from outside which allocations are granted.
pub mod Ownership
pub mod Import
mod Tests
use Prim.Native.String.{String}
use melang.Base.{ℕ, suc, ◌+◌, Bool, true, false, List, [], ◌∷◌, ◌++◌, if◌then◌else◌}

-- The calls of the interpreter, those that failed left out: a failed allocation creates nothing.
pub data Call : Type 0 where
  func_detail_new : Call
  val_new_nil : Call
  var_new : String → Call
  func_detail_arg_append : Call
  val_new_func : Call
  set_member_add : String → Call
  symbol_node_join : String → Call
  func_detail_free : Call
  val_free : Call
  var_free : Call

-- Where a method's variable goes: into the members of the library's object, as nearly always, or
-- into the scope of the context that imports the library.
pub data Place : Type 0 where
  member : Place
  scope : Place

pub record Method : Type 0 where
  pub place : Place
  pub name : String
  pub params : List String

-- The calls made, the number of the next allocation, and whether the function returned 0.
pub record Outcome : Type 0 where
  pub calls : List Call
  pub next : ℕ
  pub done : Bool

abbrev pub fails : List Call → ℕ → Outcome
fails cs n = record { calls = cs; next = n; done = false }

-- `c` and what follows it.
abbrev pub after : List Call → Outcome → Outcome
after cs r = record { calls = cs ++ r.calls; next = r.next; done = r.done }

abbrev pub adds : Place → String → Call
adds member name = set_member_add name
adds scope name = symbol_node_join name

-- The last three allocations: the value that holds the method, its variable, the member or symbol.
pub register_member : (ℕ → Bool) → ℕ → Place → String → Outcome
register_member granted n place name =
    if granted n
    then (if granted (n + 1)
        then (if granted (n + 2)
            then record {
              calls = val_new_func ∷ var_new name ∷ adds place name ∷ [];
              next = n + 3;
              done = true;
            }
            else fails (val_new_func ∷ var_new name ∷ var_free ∷ []) (n + 3))
        else fails (val_new_func ∷ val_free ∷ []) (n + 2))
    else fails (func_detail_free ∷ []) (n + 1)

-- One parameter after the other, each a nil value and a variable that is appended to the method.
pub register_params : (ℕ → Bool) → ℕ → Place → String → List String → Outcome
unfolding register_member
register_params granted n place name [] = register_member granted n place name
register_params granted n place name (p ∷ ps) =
    let rest =
      after (val_new_nil ∷ var_new p ∷ func_detail_arg_append ∷ [])
        (register_params granted (n + 2) place name ps) in
    if granted n
    then (if granted (n + 1)
        then rest
        else fails (val_new_nil ∷ val_free ∷ func_detail_free ∷ []) (n + 2))
    else fails (func_detail_free ∷ []) (n + 1)

pub register : (ℕ → Bool) → ℕ → Method → Outcome
unfolding register_params
register granted n m =
    if granted n
    then after (func_detail_new ∷ []) (register_params granted (n + 1) m.place m.name m.params)
    else fails [] (n + 1)

-- A library registers its methods in turn and stops at the first that fails.
pub register_all : (ℕ → Bool) → ℕ → List Method → Outcome
register_all granted n [] = record { calls = []; next = n; done = true }
register_all granted n (m ∷ ms) =
    let r = register granted n m in
    let rest = after r.calls (register_all granted r.next ms) in if r.done then rest else r
