-- ===== src/Strings/Join.antt =====
-- lib_src/string/mln_lang_string.c: join, which puts a string between the elements of an array. The
-- interpreter keeps the array and turns a value into a string; both come from outside.
pub mod Intercalate
use melang.Base.{
  ℕ, suc, ◌+◌, Bool, true, false, List, [], ◌∷◌, ◌++◌, Option, none, some, if◌then◌else◌,
}
use melang.Script.{
  Bytes, Value, string, array, Env, Symbol, var, other, Result, ok, err, fault, missing,
  invalid_type, no_memory, ◌>>=◌, asserted, string_of, granted,
}

-- The symbol of a parameter that is asserted to be a variable, its number in the error text.
abbrev pub asserted_as : ℕ → Option Symbol → Result Value
asserted_as n none = err (missing n)
asserted_as n (some (var v)) = ok v
asserted_as n (some other) = fault

abbrev pub array_of : ℕ → Value → Result ℕ
array_of n (array a) = ok a
array_of n _ = err (invalid_type n)

-- What the k-th call of the iteration is granted: the buffer, and the string that takes it.
pub record Grant : Type 0 where
  pub buf : Bool
  pub str : Bool

-- mln_lang_string_join_process_iterate_handler, once `elem` is the string `tmp`. Without the string
-- for the buffer, the C frees NULL in the place of the buffer.
abbrev pub join_elem : Grant → Bytes → Option Bytes → Bytes → Result (Option Bytes)
join_elem g glue none tmp = ok (some tmp)
join_elem g glue (some res) tmp =
    if g.buf then (if g.str then ok (some (res ++ glue ++ tmp)) else fault) else err no_memory

abbrev pub converted : Option Bytes → Result Bytes
converted none = err no_memory
converted (some tmp) = ok tmp

-- The iteration over the elements in the order of their index.
unfoldable pub join_loop :
    (Value → Option Bytes)
    → (ℕ → Grant)
    → ℕ
    → Bytes
    → List Value
    → Option Bytes
    → Result (Option Bytes)
join_loop tostring grants k glue [] res = ok res
join_loop tostring grants k glue (v ∷ vs) res = do
  tmp ← converted (tostring v)
  res' ← join_elem (grants k) glue res tmp
  join_loop tostring grants (k + 1) glue vs res'

abbrev pub joined : Option Bytes → Bytes
joined none = []
joined (some res) = res

-- mln_lang_string_join_process
unfoldable pub join :
    (Value → Option Bytes) → (ℕ → List Value) → (ℕ → Grant) → Bool → Env → Result Value
join tostring elements grants val env = do
  u ← asserted (env "glue")
  glue ← string_of 1 u
  v ← asserted_as 2 (env "arr")
  a ← array_of 2 v
  res ← join_loop tostring grants 0 glue (elements a) none
  granted val (string (joined res))
