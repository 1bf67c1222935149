-- ===== src/Strings/Capitalize/Restored.antt =====
-- lib_src/string/mln_lang_string.c: the result of capitalize and its argument afterwards.
use melang.Base.{ℕ, ◌-◌, ◌≡◌, refl, Bool, [], ◌∷◌, ltb, ◌&&◌, if◌then◌else◌, arith}
use melang.Script.{Bytes, string, ok, granted, given}
use melang.Strings.Capitalize.{capitalize}

-- A lower-case letter at the front made a capital, every other byte as it is.
abbrev pub capital : ℕ → ℕ
capital b = if ltb 96 b && ltb b 123 then b - 32 else b

abbrev pub capitalized : Bytes → Bytes
capitalized [] = []
capitalized (b ∷ bs) = capital b ∷ bs

-- Whether or not the copy is granted, capitalize leaves its argument as it was; what it returns is
-- the argument with its first letter made a capital, or "No memory." when the copy is refused.
pub capitalize-restores :
    (val : Bool) (s : Bytes)
    → capitalize val (given (string s))
      ≡ ok (record { value = granted val (string (capitalized s)); arg = s })
unfolding capitalize
capitalize-restores val [] = refl
capitalize-restores val (b ∷ bs) = ground arith
