-- ===== src/Strings/Tests.antt =====
-- The string functions on concrete arguments.
use melang.Base.{
  ◌-◌, ◌^◌, ◌≡◌, refl, inr, true, List, [], ◌∷◌, ◌++◌, none, some, map, length, arith,
}
use melang.Script.{Bytes, nil, int, string, ok, fault, given}
use melang.Register.Ownership.{signature, Named, settled, replay}
use melang.Strings.Hex.{bin2hex, hex2bin}
use melang.Strings.Hex.RoundTrip.{hex2bin-bin2hex}
use melang.Strings.Integer.{bin2int, int2bin}
use melang.Strings.Integer.RoundTrip.{bin2int-int2bin}
use melang.Strings.Split.{split}
use melang.Strings.Split.Bounds.{split_env, split-cut, split-outside}
use melang.Strings.Join.{join}
use melang.Strings.Join.Intercalate.{all_granted, join_env, join-intercalate}
use melang.Strings.Capitalize.{capitalize}
use melang.Strings.Capitalize.Restored.{capitalize-restores}
use melang.Strings.Methods.{funcs, mln_lang_string}
use melang.Libraries.Documented.{string_calls}
use melang.Strings.Methods.Members.{on_object, in_scope, mln_lang_string-members}

abbrev abc : Bytes
abc = b'a' ∷ b'b' ∷ b'c' ∷ []

hex2bin-bin2hex_example :
    (h : Bytes) × (bin2hex true true (given (string abc)) ≡ ok (string h))
    × (length h ≡ 6)
    × (hex2bin true true (given (string h)) ≡ ok (string abc))
hex2bin-bin2hex_example =
    hex2bin-bin2hex abc (omega arith, (omega arith, (omega arith, tt))) (omega arith)

bin2int-int2bin_example :
    (bs : Bytes) × (int2bin true (given (int 258)) ≡ ok (string bs))
    × (length bs ≡ 8)
    × (bin2int true (given (string bs)) ≡ ok (int 258))
bin2int-int2bin_example = bin2int-int2bin 258 (omega arith)

-- An offset of -2.
split-cut_example : split true (split_env abc (2 ^ 64 - 2) (some 1)) ≡ ok (string (b'b' ∷ []))
split-cut_example =
    split-cut abc (2 ^ 64 - 2) 1 (some 1) (omega arith) (omega arith) (omega arith)
      (inr (omega arith, omega arith))

split-outside_example : split true (split_env abc 4 none) ≡ fault
split-outside_example = split-outside true abc 4 none tt (λ e. cc) (omega arith) (omega arith)

-- Every value is "v".
join-intercalate_example :
    join (λ v. some (b'v' ∷ [])) (λ a. int 1 ∷ nil ∷ []) all_granted true (join_env (b',' ∷ []) 0)
    ≡ ok (string (b'v' ∷ b',' ∷ b'v' ∷ []))
join-intercalate_example =
    join-intercalate (λ v. some (b'v' ∷ [])) (λ v. b'v' ∷ []) (λ a. int 1 ∷ nil ∷ []) (b',' ∷ []) 0
      (refl, (refl, tt))

capitalize-restores_example :
    capitalize true (given (string abc))
    ≡ ok (record { value = ok (string (b'A' ∷ b'b' ∷ b'c' ∷ [])); arg = abc })
capitalize-restores_example = capitalize-restores true abc

mln_lang_string-members_example :
    ((mln_lang_string (λ i. true)).done ≡ true)
    × ((ns : List Named) × (replay (mln_lang_string (λ i. true)).calls (some (settled []))
          ≡ some (settled ns))
        × (length ns ≡ 24)
        × (map signature ns ≡ string_calls)
        × (on_object ns
            ≡ funcs
              ++ "strncmp" ∷ "split" ∷ "strlen" ∷ "b2s" ∷ "s2b" ∷ "hex2bin" ∷ "bin2int" ∷ "int2bin"
                ∷ "bin2real" ∷ "real2bin" ∷ "replace" ∷ "upper" ∷ "lower" ∷ "join" ∷ "capitalize"
                ∷ [])
        × (in_scope ns ≡ "bin2hex" ∷ []))
mln_lang_string-members_example = mln_lang_string-members (λ i. true) (λ i. refl)
