-- ===== src/Ciphers/Des.antt =====
-- lib_src/des/mln_lang_des.c: des and des3, which write to a buffer of their own and return a copy.
use melang.Base.{ℕ, ◌%◌, Bool, ◌==◌, length, if◌then◌else◌}
use melang.Script.{
  Bytes, Value, string, Env, Result, ok, err, no_memory, invalid_argument, ◌>>=◌, granted,
}
use melang.Ciphers.{string_arg, int_arg, op_of}

abbrev pub eights_of : Bytes → Result Bytes
eights_of s = if length s % 8 == 0 then ok s else err (invalid_argument 1)

-- What the buffer and the value returned are granted.
pub record DesGrants : Type 0 where
  pub buf : Bool
  pub val : Bool

abbrev pub from_buffer : DesGrants → Bytes → Result Value
from_buffer g s = if g.buf then granted g.val (string s) else err no_memory

-- `des key encode s` is mln_des_init with the key and mln_des_buf over `s`.
unfoldable pub des_process : (ℕ → Bool → Bytes → Bytes) → DesGrants → Env → Result Value
des_process des g env = do
  op ← string_arg 3 (env "op")
  encode ← op_of 3 op
  s ← string_arg 1 (env "data")
  text ← eights_of s
  key ← int_arg 2 (env "key")
  from_buffer g (des key encode text)

-- The arguments are checked in another order than those of des.
unfoldable pub des3_process : (ℕ → ℕ → Bool → Bytes → Bytes) → DesGrants → Env → Result Value
des3_process des3 g env = do
  op ← string_arg 4 (env "op")
  encode ← op_of 4 op
  key1 ← int_arg 2 (env "key1")
  key2 ← int_arg 3 (env "key2")
  s ← string_arg 1 (env "data")
  text ← eights_of s
  from_buffer g (des3 key1 key2 encode text)
