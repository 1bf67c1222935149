-- ===== src/Ciphers/Rc.antt =====
-- lib_src/rc/mln_lang_rc.c: rc4, which runs the key stream over its argument in place.
use melang.Base.{Bool, none, some}
use melang.Script.{Bytes, string, Env, Result, ok, err, fault, ◌>>=◌, granted}
use melang.Ciphers.{string_arg, Outcome}

pub record RcArgs : Type 0 where
  pub text : Bytes
  pub key : Bytes

unfoldable pub rc4_args : Env → Result RcArgs
rc4_args env = do
  text ← string_arg 1 (env "data")
  key ← string_arg 2 (env "key")
  ok (record { text = text; key = key })

-- `rc4 key s` is mln_rc4_init with the key and mln_rc4_calc over `s`.
abbrev pub rc4_done : (Bytes → Bytes → Bytes) → Bool → Result RcArgs → Outcome
rc4_done rc4 val (ok a) = record {
  written = some (rc4 a.key a.text);
  answer = granted val (string (rc4 a.key a.text));
}
rc4_done rc4 val (err e) = record { written = none; answer = err e }
rc4_done rc4 val fault = record { written = none; answer = fault }

unfoldable pub rc4_process : (Bytes → Bytes → Bytes) → Bool → Env → Outcome
rc4_process rc4 val env = rc4_done rc4 val (rc4_args env)
