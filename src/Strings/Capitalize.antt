-- ===== src/Strings/Capitalize.antt =====
-- lib_src/string/mln_lang_string.c: capitalize, which writes the capital into the argument itself,
-- copies it, and puts the first byte back.
pub mod Restored
use melang.Base.{
  ℕ, ◌-◌, Bool, true, false, List, [], ◌∷◌, Option, none, some, ltb, ◌==◌, ◌&&◌, if◌then◌else◌, not,
}
use melang.Script.{
  Bytes, Value, string, Env, Result, ok, err, fault, ◌>>=◌, asserted, string_of, granted,
}
use melang.Strings.Join.{asserted_as}

-- `s->data[0]`, or the 255 that `tmp` has before.
abbrev pub first_or_255 : Bytes → ℕ
first_or_255 [] = 255
first_or_255 (b ∷ bs) = b

-- `s->data[0] = b`; there is no such byte in an empty string.
abbrev pub set_first : ℕ → Bytes → Option Bytes
set_first b [] = none
set_first b (x ∷ bs) = some (b ∷ bs)

abbrev pub upper_first : ℕ → Bytes → Option Bytes
upper_first tmp s = if ltb 96 tmp && ltb tmp 123 then set_first (tmp - 32) s else some s

abbrev pub restore_first : ℕ → Bytes → Option Bytes
restore_first tmp s = if tmp == 255 then some s else set_first tmp s

-- The end of a call: what is returned, and the bytes of the argument.
pub record Ended : Type 0 where
  pub value : Result Value
  pub arg : Bytes

abbrev pub ended : Bool → Bytes → Option Bytes → Result Ended
ended val copy none = fault
ended val copy (some s) = ok record { value = granted val (string copy); arg = s }

abbrev pub copied_then : Bool → ℕ → Option Bytes → Result Ended
copied_then val tmp none = fault
copied_then val tmp (some s) = ended val s (restore_first tmp s)

-- mln_capitalize_process
unfoldable pub capitalize : Bool → Env → Result Ended
capitalize val env = do
  v ← asserted_as 1 (env "s")
  s ← string_of 1 v
  copied_then val (first_or_255 s) (upper_first (first_or_255 s) s)
