-- ===== src/Strings/Replace/Tests.antt =====
-- replace with a search that compares bytes.
use melang.Base.{
  ℕ, suc, ◌+◌, ◌≤◌, ◌≡◌, refl, Bool, true, List, [], ◌∷◌, Option, none, some, Bool-cases, inl, inr,
  length, leb, take, ◌&&◌, bytes_eq, arith, if◌then◌else◌,
}
use melang.Script.{Bytes, Value, int, string, ok}
use melang.Strings.Replace.{
  Finder, ReplaceGrants, collect, size_loop, copy_loop, find_loop, insert_pos, replace_do,
}
use melang.Strings.Replace.Substitute.{replace_do-total}
use melang.Strings.Replace.OneKey.{substitute, replace_do-substitute}

abbrev later : Option ℕ → Option ℕ
later none = none
later (some p) = some (suc p)

abbrev starts : Bytes → Bytes → Bool
starts s k = leb (length k) (length s) && bytes_eq (take (length k) s) k

unfoldable first_at : Bytes → Bytes → Option ℕ
first_at [] k = if starts [] k then some 0 else none
first_at (c ∷ cs) k = let rest = later (first_at cs k) in if starts (c ∷ cs) k then some 0 else rest

later-some : (o : Option ℕ) (p : ℕ) → later o ≡ some p → (q : ℕ) × (o ≡ some q) × (p ≡ suc q)
later-some none p h = absurd (ground (arith, h))
later-some (some q) p h = (q, refl, ground (arith, h))

first_at-inside : (s k : Bytes) (p : ℕ) → first_at s k ≡ some p → p + length k ≤ length s
unfolding first_at
first_at-inside [] k p h = ground (arith, h)
first_at-inside (c ∷ cs) k p h = elim (Bool-cases (starts (c ∷ cs) k)) [
  | inl e ↦ ground (arith, h, e)
  | inr e ↦
      let (q, f, g) = later-some (first_at cs k) p (ground (arith, h, e)) in
      omega (arith, first_at-inside cs k q f, g)
]

abbrev bytes_finder : Finder
bytes_finder = record { strstr = first_at; elems = λ a. [] }

abbrev all_given : ReplaceGrants
all_given = record { pos = λ i. true; buf = true; val = true }

-- "abab" with "ab" ↦ "c", "ba" ↦ "", and an element under an index.
abbrev abab : Bytes
abab = b'a' ∷ b'b' ∷ b'a' ∷ b'b' ∷ []

abbrev dict : List (Value × Value)
dict =
    (string (b'a' ∷ b'b' ∷ []), string (b'c' ∷ []))
    ∷ (int 3, string [])
    ∷ (string (b'b' ∷ b'a' ∷ []), string [])
    ∷ []

replaced_overlap : replace_do bytes_finder all_given dict abab ≡ ok (string (b'c' ∷ b'c' ∷ []))
unfolding replace_do collect find_loop insert_pos size_loop copy_loop first_at bytes_eq
replaced_overlap = refl

replace_do-total_example :
    (ps : _) × (collect bytes_finder all_given abab dict [] ≡ ok ps)
    × (length (copy_loop ps 0 abab) ≡ size_loop ps 0 (length abab))
    × (replace_do bytes_finder all_given dict abab ≡ ok (string (copy_loop ps 0 abab)))
replace_do-total_example =
    replace_do-total bytes_finder all_given first_at-inside abab dict (λ i. refl) refl refl
      (omega arith, (tt, (omega arith, tt)))

replace_do-substitute_example :
    replace_do bytes_finder all_given ((string (b'b' ∷ []), string (b'c' ∷ b'b' ∷ [])) ∷ []) abab
    ≡ ok (string (substitute bytes_finder 5 abab (b'b' ∷ []) (b'c' ∷ b'b' ∷ [])))
replace_do-substitute_example =
    replace_do-substitute bytes_finder all_given first_at-inside abab (b'b' ∷ []) (b'c' ∷ b'b' ∷ [])
      (λ i. refl) refl refl (omega arith)
