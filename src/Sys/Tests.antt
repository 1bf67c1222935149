-- ===== src/Sys/Tests.antt =====
-- The theorems on the sys library's methods at concrete values.
use melang.Base.{
  ℕ, ◌≡◌, refl, Bool, true, false, [], ◌∷◌, ◌++◌, Option, none, some, All, ◌==◌, ◌&&◌, bytes_eq,
  arith,
}
use melang.Script.{Bytes, Value, int, string, array, ok, args}
use melang.Sys.Types.{array_name, type_process}
use melang.Sys.Types.Kinds.{Answers, tests, type_process-Answers}
use melang.Sys.Properties.{Members, setter_process, getter_process, has_process, variable_name}
use melang.Sys.Properties.SetGet.{setter_env, getter_env, has_env, granted_all, setter-getter-has}
use melang.Sys.Arrays.{Array, Interp, merge_process, diff_process, keys_process}
use melang.Sys.Arrays.Unkeyed.{value_only, plain, not_among, arrays-Unkeyed}

type_process-Answers_example : All (Answers (array 3) array_name) tests
unfolding type_process
type_process-Answers_example =
    type_process-Answers (λ o. some []) (array 3) array_name (λ o e. absurd (ground (arith, e)))
      refl

abbrev add : Option Value → Value → Array → Option Array
add none v a = some (record a { elems_index = a.elems_index ++ value_only v ∷ [] })
add (some k) v a = some (record {
  elems_index = a.elems_index ++ record { key = some k; value = v } ∷ [];
  elems_key = a.elems_key ++ record { key = k; value = v } ∷ [];
})

abbrev int_eq : Value → Value → Bool
int_eq (int i) (int j) = i == j
int_eq _ _ = false

-- Array 1 holds 7 and 8, any other array 8.
abbrev arrays : ℕ → Array
arrays n = elim (n == 1) [
  | true ↦ plain (value_only (int 7) ∷ value_only (int 8) ∷ [])
  | false ↦ plain (value_only (int 8) ∷ [])
]

abbrev interp : Interp
interp = record {
  array_new = some (plain []);
  add = add;
  elem_exist = λ a k. false;
  same = int_eq;
  arrays = arrays;
}

arrays-Unkeyed_example :
    (merge_process interp (args (("array1", array 1) ∷ ("array2", array 2) ∷ []))
      ≡ ok (plain (value_only (int 7) ∷ value_only (int 8) ∷ value_only (int 8) ∷ [])))
    × (diff_process interp (args (("arr1", array 1) ∷ ("arr2", array 2) ∷ []))
        ≡ ok (plain (not_among interp (arrays 2).elems_index (arrays 1).elems_index)))
    × (keys_process interp (args (("array", array 1) ∷ [])) ≡ ok (plain []))
arrays-Unkeyed_example = arrays-Unkeyed interp 1 2 (λ v es. refl) refl (refl, (refl, tt)) (refl, tt)

-- Object 4 has no property yet.
abbrev no_members : Members
no_members p l = none

abbrev size_text : Bytes
size_text = 115 ∷ 105 ∷ 122 ∷ 101 ∷ []

setter-getter-has_example :
    let (after, r) = setter_process granted_all (setter_env 4 size_text (int 9)) no_members in
    (r ≡ ok (int 9))
    × (getter_process (getter_env 4 size_text) after ≡ ok (int 9))
    × (has_process (λ s. none) (λ a k. false) true (has_env 4 size_text) after
        ≡ ok (string variable_name))
    × ((p : ℕ) (l : Bytes) → (p == 4 && bytes_eq l size_text) ≡ false → after p l ≡ none)
setter-getter-has_example =
    setter-getter-has (λ s. none) (λ a k. false) no_members 4 size_text (int 9)
