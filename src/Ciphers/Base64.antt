-- ===== src/Ciphers/Base64.antt =====
-- lib_src/base64/mln_lang_base64.c: base64, which returns a copy of what Melon's codec made.
use melang.Base.{Bool, Option, none, some, if◌then◌else◌}
use melang.Script.{Bytes, Value, string, Env, Result, err, no_memory, ◌>>=◌, granted}
use melang.Ciphers.{string_arg, op_of}

-- mln_base64_encode and mln_base64_decode, `none` where they return -1.
pub record Codec : Type 0 where
  pub base64_encode : Bytes → Option Bytes
  pub base64_decode : Bytes → Option Bytes

-- Every failure of the codec is reported as "No memory.", also a text that is no base64.
abbrev pub from_codec : Bool → Option Bytes → Result Value
from_codec val none = err no_memory
from_codec val (some s) = granted val (string s)

unfoldable pub base64_process : Codec → Bool → Env → Result Value
base64_process codec val env = do
  op ← string_arg 2 (env "op")
  encode ← op_of 2 op
  s ← string_arg 1 (env "data")
  from_codec val (if encode then codec.base64_encode s else codec.base64_decode s)
