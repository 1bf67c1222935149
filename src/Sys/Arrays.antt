-- ===== src/Sys/Arrays.antt =====
-- lib_src/sys/mln_lang_sys.c: size, keys, merge, diff and key_diff. An array is what the iterations over
-- its two trees visit, in their order; how an element is added is Melon's.
pub mod Unkeyed
use melang.Base.{
  ℕ, suc, Bool, true, false, ◌||◌, List, [], ◌∷◌, Option, none, some, length, if◌then◌else◌, ◌>>=◌,
}
use melang.Script.{
  Value, int, array, Symbol, var, other, Env, Result, ok, err, missing, invalid_type, no_memory,
  granted, ◌>>=◌ as ◌then◌,
}

-- mln_lang_array_elem_t, as elems_index has it and as elems_key has it.
pub record Elem : Type 0 where
  pub key : Option Value
  pub value : Value

pub record KeyElem : Type 0 where
  pub key : Value
  pub value : Value

pub record Array : Type 0 where
  pub elems_index : List Elem
  pub elems_key : List KeyElem

-- `add` is mln_lang_array_get with a key, or NULL, and mln_lang_var_value_set; `elem_exist` is
-- mln_lang_array_elem_exist; `same` is what the check of diff compares, by mln_lang_var_cmp. The
-- number of an array leads to it by `arrays`.
pub record Interp : Type 0 where
  pub array_new : Option Array
  pub add : Option Value → Value → Array → Option Array
  pub elem_exist : Array → Value → Bool
  pub same : Value → Value → Bool
  pub arrays : ℕ → Array

abbrev pub array_of : Interp → ℕ → Value → Result Array
array_of ip n (array a) = ok (ip.arrays a)
array_of ip n _ = err (invalid_type n)

-- The symbol of an array, with the argument's number in the error texts.
abbrev pub array_arg : Interp → ℕ → ℕ → Option Symbol → Result Array
array_arg ip m n none = err (missing m)
array_arg ip m n (some other) = err (invalid_type n)
array_arg ip m n (some (var v)) = array_of ip n v

abbrev pub or_no_memory : Option Array → Result Array
or_no_memory none = err no_memory
or_no_memory (some a) = ok a

module _ (ip : Interp) where
  unfoldable pub size_process : Bool → Env → Result Value
  size_process val env =
      array_arg ip 0 1 (env "array") then λ a. granted val (int (length a.elems_index))

  -- The keys become the values of a new array.
  unfoldable pub keys_loop : List KeyElem → Array → Option Array
  keys_loop [] dest = some dest
  keys_loop (e ∷ es) dest = do more ← ip.add none e.key dest; keys_loop es more

  unfoldable pub keys_process : Env → Result Array
  keys_process env = array_arg ip 1 1 (env "array") then λ a.
      or_no_memory ip.array_new then λ dest. or_no_memory (keys_loop a.elems_key dest)

  unfoldable pub merge_loop : List Elem → Array → Option Array
  merge_loop [] dest = some dest
  merge_loop (e ∷ es) dest = do more ← ip.add e.key e.value dest; merge_loop es more

  -- The new array is there before the arguments are looked at.
  unfoldable pub merge_process : Env → Result Array
  merge_process env = or_no_memory ip.array_new then λ dest.
      array_arg ip 1 1 (env "array1") then λ a.
      or_no_memory (merge_loop a.elems_index dest) then λ half.
      array_arg ip 2 2 (env "array2") then λ b. or_no_memory (merge_loop b.elems_index half)

  -- Whether the iteration over the second array finds an equal value.
  unfoldable pub among : Value → List Elem → Bool
  among v [] = false
  among v (e ∷ es) = ip.same e.value v || among v es

  unfoldable pub diff_loop : Array → List Elem → Array → Option Array
  diff_loop notin [] dest = some dest
  diff_loop notin (e ∷ es) dest = do
    more ← if among e.value notin.elems_index then some dest else ip.add e.key e.value dest
    diff_loop notin es more

  unfoldable pub diff_process : Env → Result Array
  diff_process env = or_no_memory ip.array_new then λ dest. array_arg ip 1 1 (env "arr1") then λ a.
      array_arg ip 2 2 (env "arr2") then λ b. or_no_memory (diff_loop b a.elems_index dest)

  unfoldable pub key_diff_loop : Array → List KeyElem → Array → Option Array
  key_diff_loop notin [] dest = some dest
  key_diff_loop notin (e ∷ es) dest = do
    more ← if ip.elem_exist notin e.key then some dest else ip.add (some e.key) e.value dest
    key_diff_loop notin es more

  unfoldable pub key_diff_process : Env → Result Array
  key_diff_process env = or_no_memory ip.array_new then λ dest.
      array_arg ip 1 1 (env "arr1") then λ a.
      array_arg ip 2 2 (env "arr2") then λ b. or_no_memory (key_diff_loop b a.elems_key dest)
