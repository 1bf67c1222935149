-- ===== src/Strings/Split.antt =====
-- lib_src/string/mln_lang_string.c: split, which takes a part of a string. The offset has 64 bits,
-- of which the highest is the sign; a negative one counts from the end.
pub mod Bounds
use melang.Base.{
  ℕ, suc, ◌+◌, ◌-◌, ◌%◌, ◌^◌, Bool, true, false, List, [], ◌∷◌, Option, none, some, ltb, leb, ◌==◌,
  ◌&&◌, if◌then◌else◌, take, drop, length,
}
use melang.Script.{
  Bytes, Value, nil, int, string, Env, Result, ok, err, fault, invalid_type, no_memory, ◌>>=◌,
  asserted, string_of,
}

abbrev pub int_of : ℕ → Value → Result ℕ
int_of n (int i) = ok i
int_of n _ = err (invalid_type n)

-- The third argument; `none` is a `len` of -1.
abbrev pub len_of : Value → Result (Option ℕ)
len_of nil = ok none
len_of (int l) = if ltb l (2 ^ 63) then ok (some l) else err (invalid_type 3)
len_of _ = err (invalid_type 3)

-- The copy of `n` bytes that start `p` bytes into the string; a copy of none reads nothing.
abbrev pub copied : Bytes → ℕ → ℕ → Result Bytes
copied s p n =
    if n == 0 then ok [] else (if leb (p + n) (length s) then ok (take n (drop p s)) else fault)

-- The copy of `n` bytes that start before the string.
abbrev pub copied_before : ℕ → Result Bytes
copied_before n = if n == 0 then ok [] else fault

-- `len >= 0 && len < m ? len : m`
abbrev pub limited : Option ℕ → ℕ → ℕ
limited none m = m
limited (some l) m = if ltb l m then l else m

-- `off` bytes from the end.
abbrev pub from_end : Bytes → ℕ → Option ℕ → Result Bytes
from_end s off len =
    if leb off (length s)
    then copied s (length s - off) (limited len off)
    else copied_before (limited len off)

-- From an offset on; the difference of the lengths is unsigned.
abbrev pub from_start : Bytes → ℕ → Option ℕ → Result Bytes
from_start s i len = copied s i (limited len ((length s + 2 ^ 64 - i) % 2 ^ 64))

unfoldable pub part : Bytes → ℕ → Option ℕ → Result Bytes
part s i len = if ltb i (2 ^ 63) then from_start s i len else from_end s (2 ^ 64 - i) len

-- The string that is returned is made before anything is copied to it.
abbrev pub made_of : Bool → Result Bytes → Result Value
made_of false bs = err no_memory
made_of true bs = bs >>= λ b. ok (string b)

-- mln_split_process; the lowest offset has no negation, which comes before the string is made.
unfoldable pub split : Bool → Env → Result Value
split val env = do
  u ← asserted (env "s")
  s ← string_of 1 u
  v ← asserted (env "offset")
  i ← int_of 2 v
  w ← asserted (env "len")
  len ← len_of w
  if i == 2 ^ 63 then fault else made_of val (part s i len)
