-- ===== src/Script.antt =====
-- What the library functions see of the interpreter: the values of a script, the symbol found for
-- a parameter's name, and the ways in which a function ends.
use Prim.Native.String.{String}
use text.Mathlib.Text.{◌==◌ as str_eq}
use melang.Base.{ℕ, Bool, true, false, List, [], ◌∷◌, Option, none, some, if◌then◌else◌}

abbrev pub Bytes : Type 0
Bytes = List ℕ

-- The types M_LANG_VAL_TYPE_*. An integer is its 64 bits, a real the 64 bits of the double, a
-- boolean its byte; an array, an object or a function is the number of the object it refers to.
pub data Value : Type 0 where
  nil : Value
  int : ℕ → Value
  bool : ℕ → Value
  real : ℕ → Value
  string : Bytes → Value
  obj : ℕ → Value
  func : ℕ → Value
  array : ℕ → Value

-- `sym->type` is M_LANG_SYMBOL_VAR or another.
pub data Symbol : Type 0 where
  var : Value → Symbol
  other : Symbol

-- `mln_lang_symbol_node_search(ctx, &name, 1)`; `none` is NULL.
abbrev pub Env : Type 0
Env = String → Option Symbol

-- The text given to `mln_lang_errmsg` before NULL is returned; the number is the argument's.
pub data Error : Type 0 where
  missing : ℕ → Error
  invalid_type : ℕ → Error
  invalid_argument : ℕ → Error
  no_memory : Error
  cannot_convert : Error
  no_such_property : Error
  no_member_fd : Error
  invalid_type_fd : Error
  no_message : Error
  message : String → Error

-- `fault` is no return at all: a pointer that is NULL, freed or out of bounds was followed.
pub data Result {ℓ} (A : Type ℓ) : Type ℓ where
  ok : A → Result A
  err : Error → Result A
  fault : Result A

infixl 5 ◌>>=◌
abbrev pub ◌>>=◌ {ℓ κ} : {A : Type ℓ} {B : Type κ} → Result A → (A → Result B) → Result B
ok a >>= f = f a
err e >>= f = err e
fault >>= f = fault

-- The symbol of a parameter, its value, and a value that has to be a string.
abbrev pub symbol : ℕ → Option Symbol → Result Symbol
symbol n none = err (missing n)
symbol n (some s) = ok s

abbrev pub value_of : ℕ → Symbol → Result Value
value_of n (var v) = ok v
value_of n other = err (invalid_type n)

abbrev pub string_of : ℕ → Value → Result Bytes
string_of n (string s) = ok s
string_of n _ = err (invalid_type n)

-- The value of a parameter where the source only asserts that its symbol is a variable.
abbrev pub asserted : Option Symbol → Result Value
asserted none = err (missing 0)
asserted (some (var v)) = ok v
asserted (some other) = fault

abbrev pub granted : Bool → Value → Result Value
granted true v = ok v
granted false v = err no_memory

-- The call of a function with one parameter.
abbrev pub given : Value → Env
given v name = some (var v)

-- A call with arguments by their names.
abbrev pub args : List (String × Value) → Env
args [] name = none
args ((n, v) ∷ vs) name = if str_eq name n then some (var v) else args vs name
