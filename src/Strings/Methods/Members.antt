-- ===== src/Strings/Methods/Members.antt =====
-- What is left of the registration of the string library.
use mathlib.Core.List.{map}
use melang.Base.{ℕ, ◌≡◌, refl, ◌≤◌, ◌↔◌, Bool, true, List, [], ◌∷◌, ◌++◌, some, length}
use melang.Register.Ownership.{
  signature, Named, settled, replay, entry, first_members, register_all-settled,
  register_all_complete,
}
use melang.Register.{member, scope}
use Prim.Native.String.{String}
use melang.Libraries.Documented.{string_calls}
use melang.Strings.Methods.{funcs, mln_lang_string, string_methods}

-- The names of one place.
abbrev pub in_scope : List Named → List String
in_scope [] = []
in_scope (n ∷ ns) = elim n.place [ scope ↦ n.name ∷ in_scope ns | member ↦ in_scope ns ]

abbrev pub on_object : List Named → List String
on_object [] = []
on_object (n ∷ ns) = elim n.place [ scope ↦ on_object ns | member ↦ n.name ∷ on_object ns ]

-- When every allocation is granted, mln_lang_string returns 0 and leaves 24 methods and nothing else,
-- the calls that the library's page documents with their numbers of parameters: 23 as members of the
-- object, in the order of the source, but bin2hex in the scope of the importing context, so the object
-- has no such member.
pub mln_lang_string-members :
    (granted : ℕ → Bool)
    → ((i : ℕ) → granted i ≡ true)
    → ((mln_lang_string granted).done ≡ true)
      × ((ns : List Named) × (replay (mln_lang_string granted).calls (some (settled []))
            ≡ some (settled ns))
          × (length ns ≡ 24)
          × (map signature ns ≡ string_calls)
          × (on_object ns
              ≡ funcs
                ++ "strncmp" ∷ "split" ∷ "strlen" ∷ "b2s" ∷ "s2b" ∷ "hex2bin" ∷ "bin2int"
                  ∷ "int2bin" ∷ "bin2real" ∷ "real2bin" ∷ "replace" ∷ "upper" ∷ "lower" ∷ "join"
                  ∷ "capitalize" ∷ [])
          × (in_scope ns ≡ "bin2hex" ∷ []))
mln_lang_string-members granted all =
    let (done, rep) = register_all_complete granted 0 string_methods [] all in
    (done, (map entry string_methods, rep, refl, refl, refl, refl))

-- Whichever allocations fail, mln_lang_string leaks no object, frees none twice and uses none that
-- is not held: what is left are the names of the first methods, all 24 of them exactly when it
-- returns 0.
pub mln_lang_string-settled :
    (granted : ℕ → Bool)
    → (j : ℕ) × (replay (mln_lang_string granted).calls (some (settled []))
        ≡ some (settled (first_members j string_methods [])))
      × (j ≤ 24)
      × (((mln_lang_string granted).done ≡ true) ↔ (j ≡ 24))
mln_lang_string-settled granted = register_all-settled granted 0 string_methods []
