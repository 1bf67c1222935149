-- ===== src/Sys/Properties.antt =====
-- lib_src/sys/mln_lang_sys.c: getter, setter and has. The members of all objects are a state that setter
-- changes.
pub mod SetGet
use melang.Base.{
  ℕ, Bool, true, false, ◌&&◌, List, [], ◌∷◌, Option, none, some, ◌==◌, bytes_eq, if◌then◌else◌,
}
use melang.Script.{
  Bytes, Value, nil, string, obj, func, array, Symbol, var, other, Env, Result, ok, err, fault,
  missing, invalid_type, no_memory, no_such_property, granted, ◌>>=◌,
}
use melang.Sys.Types.{boolean, set_name, function_name}

-- What mln_lang_set_member_search finds on each object.
abbrev pub Members : Type 0
Members = ℕ → Bytes → Option Value

abbrev pub variable_arg : ℕ → Option Symbol → Result Value
variable_arg n none = err (missing n)
variable_arg n (some other) = err (invalid_type n)
variable_arg n (some (var v)) = ok v

abbrev pub object_of : ℕ → Value → Result ℕ
object_of n (obj o) = ok o
object_of n _ = err (invalid_type n)

abbrev pub name_of : ℕ → Value → Result Bytes
name_of n (string s) = ok s
name_of n _ = err (invalid_type n)

abbrev pub found_property : Option Value → Result Value
found_property none = err no_such_property
found_property (some v) = ok v

unfoldable pub getter_process : Env → Members → Result Value
getter_process env members = do
  prop ← variable_arg 2 (env "prop")
  owner ← variable_arg 1 (env "obj")
  o ← object_of 1 owner
  name ← name_of 2 prop
  found_property (members o name)

-- What the new property, its node and the value set are granted.
pub record SetterGrants : Type 0 where
  pub var : Bool
  pub node : Bool
  pub value : Bool

pub record SetterArgs : Type 0 where
  pub owner : ℕ
  pub name : Bytes
  pub value : Value

unfoldable pub setter_args : Env → Result SetterArgs
setter_args env = do
  u ← variable_arg 1 (env "obj")
  o ← object_of 1 u
  v ← variable_arg 2 (env "prop")
  name ← name_of 2 v
  value ← variable_arg 3 (env "val")
  ok (record { owner = o; name = name; value = value })

abbrev pub set_member : ℕ → Bytes → Value → Members → Members
set_member o name v members p l = if p == o && bytes_eq l name then some v else members p l

-- mln_lang_var_value_set on the property that is there.
abbrev pub set_value : SetterGrants → SetterArgs → Members → Members × Result Value
set_value g a members =
    if g.value
    then (set_member a.owner a.name a.value members, ok a.value)
    else (members, err no_memory)

-- A property that is missing is made first, with nil; it stays when the value is then refused.
abbrev pub set_or_create :
    SetterGrants → SetterArgs → Members → Option Value → Members × Result Value
set_or_create g a members (some v) = set_value g a members
set_or_create g a members none =
    if g.var
    then (if g.node
        then set_value g a (set_member a.owner a.name nil members)
        else (members, err no_memory))
    else (members, err no_memory)

abbrev pub setter_with : SetterGrants → Members → Result SetterArgs → Members × Result Value
setter_with g members (ok a) = set_or_create g a members (members a.owner a.name)
setter_with g members (err e) = (members, err e)
setter_with g members fault = (members, fault)

unfoldable pub setter_process : SetterGrants → Env → Members → Members × Result Value
setter_process g env members = setter_with g members (setter_args env)

abbrev pub method_name : Bytes
method_name = 109 ∷ 101 ∷ 116 ∷ 104 ∷ 111 ∷ 100 ∷ []

abbrev pub variable_name : Bytes
variable_name = 118 ∷ 97 ∷ 114 ∷ 105 ∷ 97 ∷ 98 ∷ 108 ∷ 101 ∷ []

abbrev pub member_kind : Option Value → Value
member_kind none = boolean false
member_kind (some (func f)) = string method_name
member_kind (some _) = string variable_name

abbrev pub symbol_kind : Option Symbol → Value
symbol_kind none = boolean false
symbol_kind (some other) = string set_name
symbol_kind (some (var (func f))) = string function_name
symbol_kind (some (var _)) = string variable_name

-- `scope` is the search for a symbol from the calling scope on, `elem_exist` that for an array's key.
abbrev pub has_in :
    (Bytes → Option Symbol) → (ℕ → Value → Bool) → Members → Value → Value → Result Value
has_in scope elem_exist members (array a) thing = ok (boolean (elem_exist a thing))
has_in scope elem_exist members (obj o) thing =
    name_of 2 thing >>= λ name. ok (member_kind (members o name))
has_in scope elem_exist members nil thing =
    name_of 2 thing >>= λ name. ok (symbol_kind (scope name))
has_in scope elem_exist members _ thing = err (invalid_type 1)

unfoldable pub has_process :
    (Bytes → Option Symbol) → (ℕ → Value → Bool) → Bool → Env → Members → Result Value
has_process scope elem_exist val env members = do
  thing ← variable_arg 2 (env "thing")
  owner ← variable_arg 1 (env "owner")
  answer ← has_in scope elem_exist members owner thing
  granted val answer
