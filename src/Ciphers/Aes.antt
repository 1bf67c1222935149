-- ===== src/Ciphers/Aes.antt =====
-- lib_src/aes/mln_lang_aes.c: aes, which encrypts or decrypts its argument in place, block by block.
pub mod Blocks
use melang.Base.{
  ℕ, zero, suc, ◌+◌, ◌/◌, ◌%◌, Bool, true, false, List, [], ◌∷◌, ◌++◌, Option, none, some, ◌==◌,
  ltb, length, take, drop, if◌then◌else◌,
}
use melang.Script.{
  Bytes, Value, string, Env, Result, ok, err, fault, invalid_argument, ◌>>=◌, granted,
}
use melang.Ciphers.{string_arg, int_arg, op_of, Outcome}

-- The arguments, checked in the order op, key, bits, data.
pub record AesArgs : Type 0 where
  pub encode : Bool
  pub key : Bytes
  pub bits : ℕ
  pub text : Bytes

-- The key has to have as many bytes as `bits` asks for.
abbrev pub bits_of : Bytes → ℕ → Result ℕ
bits_of key i =
    if i == 128
    then (if ltb (length key) 16 then err (invalid_argument 3) else ok 128)
    else (if i == 192
        then (if ltb (length key) 24 then err (invalid_argument 3) else ok 192)
        else (if i == 256
            then (if ltb (length key) 32 then err (invalid_argument 3) else ok 256)
            else err (invalid_argument 3)))

abbrev pub data_of : Bytes → Result Bytes
data_of s = if length s % 16 == 0 then ok s else err (invalid_argument 1)

unfoldable pub aes_args : Env → Result AesArgs
aes_args env = do
  op ← string_arg 4 (env "op")
  encode ← op_of 4 op
  key ← string_arg 2 (env "key")
  i ← int_arg 3 (env "bits")
  bits ← bits_of key i
  s ← string_arg 1 (env "data")
  text ← data_of s
  ok (record { encode = encode; key = key; bits = bits; text = text })

-- The loop `for (; p < pend; p += 16)`, with so many blocks left.
unfoldable pub blocks : (Bytes → Bytes) → ℕ → Bytes → Bytes
blocks f zero s = []
blocks f (suc n) s = f (take 16 s) ++ blocks f n (drop 16 s)

-- mln_aes_encrypt and mln_aes_decrypt of one block, with a key and its bits.
pub record Aes : Type 0 where
  pub encrypt : Bytes → ℕ → Bytes → Bytes
  pub decrypt : Bytes → ℕ → Bytes → Bytes

abbrev pub aes_data : Aes → AesArgs → Bytes
aes_data aes a =
    blocks (if a.encode then aes.encrypt a.key a.bits else aes.decrypt a.key a.bits)
      (length a.text / 16) a.text

abbrev pub aes_done : Aes → Bool → Result AesArgs → Outcome
aes_done aes val (ok a) = record {
  written = some (aes_data aes a);
  answer = granted val (string (aes_data aes a));
}
aes_done aes val (err e) = record { written = none; answer = err e }
aes_done aes val fault = record { written = none; answer = fault }

unfoldable pub aes_process : Aes → Bool → Env → Outcome
unfolding aes_args
aes_process aes val env = aes_done aes val (aes_args env)
