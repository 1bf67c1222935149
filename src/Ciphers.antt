-- ===== src/Ciphers.antt =====
-- lib_src/aes, rc, des and base64: what the methods do with their arguments. The ciphers themselves are
-- Melon's and come from outside.
pub mod Aes
pub mod Rc
pub mod Des
pub mod Base64
pub mod RoundTrip
mod Tests
use melang.Base.{ℕ, Bool, true, false, List, [], ◌∷◌, Option, none, some, bytes_eq, if◌then◌else◌}
use melang.Script.{
  Bytes, Value, int, string, Symbol, Result, ok, err, fault, invalid_argument, ◌>>=◌, asserted,
}

-- The value of an argument, refused with its number when it has not the type asked for.
abbrev pub bytes_of : ℕ → Value → Result Bytes
bytes_of n (string s) = ok s
bytes_of n _ = err (invalid_argument n)

abbrev pub int_of : ℕ → Value → Result ℕ
int_of n (int i) = ok i
int_of n _ = err (invalid_argument n)

abbrev pub string_arg : ℕ → Option Symbol → Result Bytes
string_arg n s = asserted s >>= bytes_of n

abbrev pub int_arg : ℕ → Option Symbol → Result ℕ
int_arg n s = asserted s >>= int_of n

-- "encode" and "decode".
abbrev pub encode_name : Bytes
encode_name = 101 ∷ 110 ∷ 99 ∷ 111 ∷ 100 ∷ 101 ∷ []

abbrev pub decode_name : Bytes
decode_name = 100 ∷ 101 ∷ 99 ∷ 111 ∷ 100 ∷ 101 ∷ []

-- Whether to encode, by the argument op.
abbrev pub op_of : ℕ → Bytes → Result Bool
op_of n s =
    if bytes_eq s encode_name
    then ok true
    else (if bytes_eq s decode_name then ok false else err (invalid_argument n))

-- What a call leaves: the new contents of the string that the argument data refers to, if it was
-- written, and the answer. Where it was written, that object itself is returned, not a copy.
pub record Outcome : Type 0 where
  pub written : Option Bytes
  pub answer : Result Value
