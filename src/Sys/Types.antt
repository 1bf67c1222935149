-- ===== src/Sys/Types.antt =====
-- lib_src/sys/mln_lang_sys.c: the type of a value, the tests on it, and the conversions to a type.
pub mod Kinds
use melang.Base.{ℕ, Bool, true, false, List, [], ◌∷◌, Option, none, some, if◌then◌else◌}
use melang.Script.{
  Bytes, Value, nil, int, bool, real, string, obj, func, array, Symbol, var, other, Env, Result, ok,
  err, missing, no_memory, cannot_convert, granted,
}

abbrev pub set_name : Bytes
set_name = 115 ∷ 101 ∷ 116 ∷ []

abbrev pub nil_name : Bytes
nil_name = 110 ∷ 105 ∷ 108 ∷ []

abbrev pub int_name : Bytes
int_name = 105 ∷ 110 ∷ 116 ∷ []

abbrev pub bool_name : Bytes
bool_name = 98 ∷ 111 ∷ 111 ∷ 108 ∷ []

abbrev pub real_name : Bytes
real_name = 114 ∷ 101 ∷ 97 ∷ 108 ∷ []

abbrev pub string_name : Bytes
string_name = 115 ∷ 116 ∷ 114 ∷ 105 ∷ 110 ∷ 103 ∷ []

abbrev pub object_name : Bytes
object_name = 111 ∷ 98 ∷ 106 ∷ 101 ∷ 99 ∷ 116 ∷ []

abbrev pub function_name : Bytes
function_name = 102 ∷ 117 ∷ 110 ∷ 99 ∷ 116 ∷ 105 ∷ 111 ∷ 110 ∷ []

abbrev pub array_name : Bytes
array_name = 97 ∷ 114 ∷ 114 ∷ 97 ∷ 121 ∷ []

abbrev pub true_name : Bytes
true_name = 116 ∷ 114 ∷ 117 ∷ 101 ∷ []

abbrev pub false_name : Bytes
false_name = 102 ∷ 97 ∷ 108 ∷ 115 ∷ 101 ∷ []

-- The text of a type; an object has the name of its set, which comes from outside.
abbrev pub type_name : (ℕ → Option Bytes) → Value → Bytes
type_name set_of nil = nil_name
type_name set_of (int i) = int_name
type_name set_of (bool b) = bool_name
type_name set_of (real f) = real_name
type_name set_of (string s) = string_name
type_name set_of (obj o) = elim (set_of o) [ none ↦ object_name | some name ↦ name ]
type_name set_of (func f) = function_name
type_name set_of (array a) = array_name

-- A symbol that is no variable is a set.
abbrev pub symbol_type : (ℕ → Option Bytes) → Bool → Option Symbol → Result Value
symbol_type set_of val none = err (missing 1)
symbol_type set_of val (some other) = granted val (string set_name)
symbol_type set_of val (some (var v)) = granted val (string (type_name set_of v))

unfoldable pub type_process : (ℕ → Option Bytes) → Bool → Env → Result Value
type_process set_of val env = symbol_type set_of val (env "var")

abbrev pub boolean : Bool → Value
boolean b = bool (if b then 1 else 0)

-- A test answers false for a symbol that is no variable.
abbrev pub symbol_is : (Value → Bool) → Bool → Option Symbol → Result Value
symbol_is test val none = err (missing 0)
symbol_is test val (some other) = granted val (boolean false)
symbol_is test val (some (var v)) = granted val (boolean (test v))

abbrev pub int_test : Value → Bool
int_test (int _) = true
int_test _ = false

unfoldable pub is_int_process : Bool → Env → Result Value
is_int_process val env = symbol_is int_test val (env "var")

abbrev pub real_test : Value → Bool
real_test (real _) = true
real_test _ = false

unfoldable pub is_real_process : Bool → Env → Result Value
is_real_process val env = symbol_is real_test val (env "var")

abbrev pub str_test : Value → Bool
str_test (string _) = true
str_test _ = false

unfoldable pub is_str_process : Bool → Env → Result Value
is_str_process val env = symbol_is str_test val (env "var")

abbrev pub nil_test : Value → Bool
nil_test nil = true
nil_test _ = false

unfoldable pub is_nil_process : Bool → Env → Result Value
is_nil_process val env = symbol_is nil_test val (env "var")

abbrev pub bool_test : Value → Bool
bool_test (bool _) = true
bool_test _ = false

unfoldable pub is_bool_process : Bool → Env → Result Value
is_bool_process val env = symbol_is bool_test val (env "var")

abbrev pub obj_test : Value → Bool
obj_test (obj _) = true
obj_test _ = false

unfoldable pub is_obj_process : Bool → Env → Result Value
is_obj_process val env = symbol_is obj_test val (env "var")

abbrev pub func_test : Value → Bool
func_test (func _) = true
func_test _ = false

unfoldable pub is_func_process : Bool → Env → Result Value
is_func_process val env = symbol_is func_test val (env "var")

abbrev pub array_test : Value → Bool
array_test (array _) = true
array_test _ = false

unfoldable pub is_array_process : Bool → Env → Result Value
is_array_process val env = symbol_is array_test val (env "var")

-- What the conversions take from the machine and from Melon.
pub record Machine : Type 0 where
  pub double_of : ℕ → ℕ
  pub s64_of : ℕ → ℕ
  pub atol : Bytes → ℕ
  pub atof : Bytes → ℕ
  pub print_int : ℕ → Bytes
  pub print_real : ℕ → Bytes
  pub condition_is_true : Value → Bool

-- What the copy of a string and the value returned are granted.
pub record ConvertGrants : Type 0 where
  pub buf : Bool
  pub val : Bool

-- A string is copied, to end it with a zero byte, before it is read.
abbrev pub copied_value : ConvertGrants → Value → Result Value
copied_value g v = if g.buf then granted g.val v else err no_memory

-- A symbol that is no variable cannot be converted.
abbrev pub convert : (Value → Result Value) → Option Symbol → Result Value
convert to none = err (missing 0)
convert to (some other) = err cannot_convert
convert to (some (var v)) = to v

abbrev pub to_int : Machine → ConvertGrants → Value → Result Value
to_int m g (int i) = granted g.val (int i)
to_int m g (real f) = granted g.val (int (m.s64_of f))
to_int m g (string s) = copied_value g (int (m.atol s))
to_int m g _ = err cannot_convert

unfoldable pub int_process : Machine → ConvertGrants → Env → Result Value
int_process m g env = convert (to_int m g) (env "var")

abbrev pub to_real : Machine → ConvertGrants → Value → Result Value
to_real m g (int i) = granted g.val (real (m.double_of i))
to_real m g (real f) = granted g.val (real f)
to_real m g (string s) = copied_value g (real (m.atof s))
to_real m g _ = err cannot_convert

unfoldable pub real_process : Machine → ConvertGrants → Env → Result Value
real_process m g env = convert (to_real m g) (env "var")

abbrev pub to_bool : Machine → ConvertGrants → Value → Result Value
to_bool m g v = granted g.val (boolean (m.condition_is_true v))

unfoldable pub bool_process : Machine → ConvertGrants → Env → Result Value
bool_process m g env = convert (to_bool m g) (env "var")

abbrev pub to_str : Machine → ConvertGrants → Value → Result Value
to_str m g (int i) = granted g.val (string (m.print_int i))
to_str m g (bool b) =
    granted g.val (string (if m.condition_is_true (bool b) then true_name else false_name))
to_str m g (real f) = granted g.val (string (m.print_real f))
to_str m g (string s) = granted g.val (string s)
to_str m g _ = err cannot_convert

unfoldable pub str_process : Machine → ConvertGrants → Env → Result Value
str_process m g env = convert (to_str m g) (env "var")
