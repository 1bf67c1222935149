-- ===== src/Sys/Arrays/Unkeyed.antt =====
-- merge and diff of arrays without keys, and keys.
use melang.Base.{
  ℕ, ◌≡◌, sym, ap, ◌∙◌, List, [], ◌∷◌, ◌++◌, none, some, All, map, arith, Bool-cases, inl, inr,
  if◌then◌else◌,
}
use mathlib.Core.List.{append_assoc, append-nil}
use melang.Script.{Value, array, ok, args}
use melang.Sys.Arrays.{
  Elem, KeyElem, Array, Interp, keys_loop, keys_process, merge_loop, merge_process, among,
  diff_loop, diff_process,
}

-- An array of values at 0, 1, 2 and so on.
abbrev pub value_only : Value → Elem
value_only v = record { key = none; value = v }

abbrev pub plain : List Elem → Array
plain es = record { elems_index = es; elems_key = [] }

abbrev pub Unkeyed : List Elem → Type 0
Unkeyed es = All (λ e. e.key ≡ none) es

-- The elements whose value is not among those of the other array.
abbrev pub not_among : Interp → List Elem → List Elem → List Elem
not_among ip bs [] = []
not_among ip bs (e ∷ es) =
    if among ip e.value bs then not_among ip bs es else e ∷ not_among ip bs es

-- Adding a value without a key puts it at the end.
abbrev pub Appends : Interp → Type 0
Appends ip =
    (v : Value) (es : List Elem) → ip.add none v (plain es) ≡ some (plain (es ++ value_only v ∷ []))

module _ (ip : Interp) (append : Appends ip) where
  keys_loop-plain :
      (ks : List KeyElem) (es : List Elem)
      → keys_loop ip ks (plain es) ≡ some (plain (es ++ map (λ k. value_only k.key) ks))
  unfolding keys_loop
  keys_loop-plain [] es = ap (λ x. some (plain x)) (sym (append-nil es))
  keys_loop-plain (k ∷ ks) es = rw (append k.key es) (
      keys_loop-plain ks (es ++ value_only k.key ∷ [])
      ∙ ap (λ x. some (plain x))
          (append_assoc es (value_only k.key ∷ []) (map (λ k. value_only k.key) ks)))

  add-unkeyed :
      (b : Elem) (es : List Elem)
      → b.key ≡ none
      → ip.add b.key b.value (plain es) ≡ some (plain (es ++ b ∷ []))
  add-unkeyed b es k =
      let same : value_only b.value ≡ b = λ i. record { key = sym k i; value = b.value } in
      ap (λ key. ip.add key b.value (plain es)) k
      ∙ append b.value es
      ∙ ap (λ e. some (plain (es ++ e ∷ []))) same

  merge_loop-plain :
      (bs es : List Elem) → Unkeyed bs → merge_loop ip bs (plain es) ≡ some (plain (es ++ bs))
  unfolding merge_loop
  merge_loop-plain [] es u = ap (λ x. some (plain x)) (sym (append-nil es))
  merge_loop-plain (b ∷ bs) es (k, u) = rw (add-unkeyed b es k) (
      merge_loop-plain bs (es ++ b ∷ []) u ∙ ap (λ x. some (plain x)) (append_assoc es (b ∷ []) bs))

  diff_loop-plain :
      (notin : Array) (bs es : List Elem)
      → Unkeyed bs
      → diff_loop ip notin bs (plain es) ≡ some (plain (es ++ not_among ip notin.elems_index bs))
  unfolding diff_loop
  diff_loop-plain notin [] es u = ap (λ x. some (plain x)) (sym (append-nil es))
  diff_loop-plain notin (b ∷ bs) es (k, u) =
      elim (Bool-cases (among ip b.value notin.elems_index)) [
        | inl found ↦ rw found (diff_loop-plain notin bs es u)
        | inr not_found ↦
            rw (not_found, add-unkeyed b es k)
              (diff_loop-plain notin bs (es ++ b ∷ []) u
                ∙ ap (λ x. some (plain x))
                    (append_assoc es (b ∷ []) (not_among ip notin.elems_index bs)))
      ]

-- Where Melon adds a value without a key at the end of an array without keys, and grants every
-- allocation: merge of two arrays without keys has the values of the first and then those of the second;
-- diff has the values of the first that are not among those of the second, in order; and keys of any
-- array has its keys as values, in the order of its tree of keys.
pub arrays-Unkeyed :
    (ip : Interp) (a b : ℕ)
    → Appends ip
    → ip.array_new ≡ some (plain [])
    → Unkeyed (ip.arrays a).elems_index
    → Unkeyed (ip.arrays b).elems_index
    → (merge_process ip (args (("array1", array a) ∷ ("array2", array b) ∷ []))
        ≡ ok (plain ((ip.arrays a).elems_index ++ (ip.arrays b).elems_index)))
      × (diff_process ip (args (("arr1", array a) ∷ ("arr2", array b) ∷ []))
          ≡ ok (plain (not_among ip (ip.arrays b).elems_index (ip.arrays a).elems_index)))
      × (keys_process ip (args (("array", array a) ∷ []))
          ≡ ok (plain (map (λ k. value_only k.key) (ip.arrays a).elems_key)))
unfolding merge_process diff_process keys_process
arrays-Unkeyed ip a b append new ua ub = (
  ground (
    arith,
    new,
    merge_loop-plain ip append (ip.arrays a).elems_index [] ua,
    merge_loop-plain ip append (ip.arrays b).elems_index (ip.arrays a).elems_index ub,
  ),
  ground (arith, new, diff_loop-plain ip append (ip.arrays b) (ip.arrays a).elems_index [] ua),
  ground (arith, new, keys_loop-plain ip append (ip.arrays a).elems_key []),
)
