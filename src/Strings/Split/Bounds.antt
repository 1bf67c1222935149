-- ===== src/Strings/Split/Bounds.antt =====
-- lib_src/string/mln_lang_string.c: split, by the place of its offset in the string.
use text.Mathlib.Text.{◌==◌ as str_eq}
use melang.Base.{
  length-drop, ltb→lt, ◌∙◌, ap, sym, Bool-cases, lt→ltb, ℕ, zero, suc, ◌+◌, ◌-◌, ◌%◌, ◌^◌, ◌≤◌, ◌<◌,
  ◌≡◌, refl, ◌⊎◌, inl, inr, Bool, true, false, [], ◌∷◌, Option, none, some, ltb, leb, ◌==◌,
  if◌then◌else◌, take, drop, length, arith,
}
use melang.Script.{Bytes, Value, nil, int, string, Env, Result, var, ok, err, fault, no_memory}
use melang.Strings.Split.{split, made_of, part, limited, from_start, copied}

-- The arguments of a call; a length that is not given is nil.
abbrev pub len_value : Option ℕ → Value
len_value none = nil
len_value (some l) = int l

-- The first `l` bytes, or all of them.
abbrev pub cut : Option ℕ → Bytes → Bytes
cut none bs = bs
cut (some l) bs = take l bs

pub take-all : (n : ℕ) (bs : Bytes) → length bs ≤ n → take n bs ≡ bs
take-all zero [] le = refl
take-all zero (b ∷ bs) le = absurd (omega arith)
take-all (suc n) [] le = refl
take-all (suc n) (b ∷ bs) le = ground (arith, take-all n bs)

wrapped-diff : (a i : ℕ) → i ≤ a → a < 2 ^ 63 → (a + 2 ^ 64 - i) % 2 ^ 64 ≡ a - i
wrapped-diff a i le lt = omega arith

-- What the script passes as a length: nothing, or a number that is not negative.
abbrev pub IsLen : Option ℕ → Type 0
IsLen none = Unit
IsLen (some l) = l < 2 ^ 63

-- The arguments of split.
abbrev pub split_env : Bytes → ℕ → Option ℕ → Env
split_env s i len name =
    if str_eq name "s"
    then some (var (string s))
    else (if str_eq name "offset" then some (var (int i)) else some (var (len_value len)))

split-part :
    (val : Bool) (s : Bytes) (r : Result Bytes) (i : ℕ) (len : Option ℕ)
    → IsLen len
    → (i == 2 ^ 63) ≡ false
    → part s i len ≡ r
    → split val (split_env s i len) ≡ made_of val r
unfolding split
split-part val s r i none lt some_offset e = rw (some_offset, e) refl
split-part val s r i (some l) lt some_offset e = rw (lt→ltb l (2 ^ 63) lt, some_offset, e) refl

ltb-ge : (a b : ℕ) → ltb a b ≡ false → b ≤ a
ltb-ge a b h = ground arith

copied-take :
    (s : Bytes) (p n : ℕ) → p ≤ length s → n ≤ length s - p → copied s p n ≡ ok (take n (drop p s))
copied-take s p zero le h = refl
copied-take s p (suc n) le h = ground arith

-- A copy within the string is the cut of what follows its start.
copied-cut :
    (s : Bytes) (p m : ℕ) (len : Option ℕ)
    → p ≤ length s
    → m ≡ length s - p
    → copied s p (limited len m) ≡ ok (cut len (drop p s))
copied-cut s p m none le e =
    copied-take s p m le (omega arith)
    ∙ ap ok (take-all m (drop p s) (omega (arith, length-drop p s)))
copied-cut s p m (some l) le e = elim (Bool-cases (ltb l m)) [
  | inl lt ↦ rw lt (copied-take s p l le (omega (arith, ltb→lt l m lt)))
  | inr ge ↦ rw ge (
      copied-take s p m le (omega arith)
      ∙ ap ok (take-all m (drop p s) (omega (arith, length-drop p s)))
      ∙ ap ok (sym (take-all l (drop p s) (omega (arith, length-drop p s, ltb-ge l m ge)))))
]

part-start : (s : Bytes) (i : ℕ) (len : Option ℕ) → i < 2 ^ 63 → part s i len ≡ from_start s i len
unfolding part
part-start s i len lt = rw (lt→ltb i (2 ^ 63) lt) refl

part-end :
    (s : Bytes) (i : ℕ) (len : Option ℕ)
    → 2 ^ 63 < i
    → 2 ^ 64 - i ≤ length s
    → part s i len ≡ copied s (length s - (2 ^ 64 - i)) (limited len (2 ^ 64 - i))
unfolding part
part-end s i len lt le =
    let a : ltb i (2 ^ 63) ≡ false = ground arith in
    let c : leb (2 ^ 64 - i) (length s) ≡ true = ground arith in rw a (rw c refl)

part-cut :
    (s : Bytes) (i n : ℕ) (len : Option ℕ)
    → length s < 2 ^ 63
    → n ≤ length s
    → (i ≡ n) ⊎ ((n < length s) × (i + length s ≡ 2 ^ 64 + n))
    → part s i len ≡ ok (cut len (drop n s))
part-cut s i n len short le (inl e) =
    part-start s i len (omega arith)
    ∙ copied-cut s i ((length s + 2 ^ 64 - i) % 2 ^ 64) len (omega arith)
        (wrapped-diff (length s) i (omega arith) short)
    ∙ ap (λ k. ok (cut len (drop k s))) e
part-cut s i n len short le (inr (lt, e)) =
    part-end s i len (omega arith) (omega arith)
    ∙ copied-cut s (length s - (2 ^ 64 - i)) (2 ^ 64 - i) len (omega arith) (omega arith)
    ∙ ap (λ k. ok (cut len (drop k s))) (omega arith)

made_of-fault : (val : Bool) → made_of val fault ≡ (if val then fault else err no_memory)
made_of-fault true = refl
made_of-fault false = refl

in_range :
    (i a n : ℕ)
    → a < 2 ^ 63
    → n ≤ a
    → (i ≡ n) ⊎ ((n < a) × (i + a ≡ 2 ^ 64 + n))
    → (i == 2 ^ 63) ≡ false
in_range i a n short le (inl e) = ground arith
in_range i a n short le (inr (lt, e)) = ground arith

-- Where memory is granted, split with an offset within a string shorter than 2 ^ 63, counted from
-- the start or, when it is negative, from the end, gives the bytes from there on: the first `len`
-- of them, or all when `len` is nil or larger.
pub split-cut :
    (s : Bytes) (i n : ℕ) (len : Option ℕ)
    → IsLen len
    → length s < 2 ^ 63
    → n ≤ length s
    → (i ≡ n) ⊎ ((n < length s) × (i + length s ≡ 2 ^ 64 + n))
    → split true (split_env s i len) ≡ ok (string (cut len (drop n s)))
split-cut s i n len is_len short le at =
    split-part true s (ok (cut len (drop n s))) i len is_len (in_range i (length s) n short le at)
      (part-cut s i n len short le at)

copied-past : (s : Bytes) (p n : ℕ) → 0 < n → length s < p → copied s p n ≡ fault
copied-past s p zero lt gt = absurd (omega arith)
copied-past s p (suc n) lt gt = ground arith

limited-pos : (len : Option ℕ) (m : ℕ) → ¬ (len ≡ some 0) → 0 < m → 0 < limited len m
limited-pos none m h lt = lt
limited-pos (some zero) m h lt = absurd (h refl)
limited-pos (some (suc l)) m h lt = ground arith

wrapped-pos : (a i : ℕ) → a < i → i < 2 ^ 63 → 0 < (a + 2 ^ 64 - i) % 2 ^ 64
wrapped-pos a i gt lt = omega arith

-- split with an offset behind the end of the string, and a length that is nil or a number from 1 on,
-- fails with "No memory." where the string that it asks for is refused, and reads outside the string
-- where it is granted.
pub split-outside :
    (val : Bool) (s : Bytes) (i : ℕ) (len : Option ℕ)
    → IsLen len
    → ¬ (len ≡ some 0)
    → length s < i
    → i < 2 ^ 63
    → split val (split_env s i len) ≡ (if val then fault else err no_memory)
split-outside val s i len is_len some_bytes gt lt =
    split-part val s fault i len is_len (ground arith) (
      part-start s i len lt
      ∙ copied-past s i (limited len ((length s + 2 ^ 64 - i) % 2 ^ 64))
          (limited-pos len ((length s + 2 ^ 64 - i) % 2 ^ 64) some_bytes
            (wrapped-pos (length s) i gt lt))
          gt)
    ∙ made_of-fault val
