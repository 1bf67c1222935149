-- ===== src/Strings/Integer.antt =====
-- lib_src/string/mln_lang_string.c: integers, reals and booleans as bytes. The copies by memcpy are
-- those of a machine that stores the lowest byte first; a real is the 64 bits of the double.
pub mod RoundTrip
use Prim.Native.Nat.{bit_and, bit_or}
use melang.Base.{
  ℕ, zero, suc, ◌+◌, ◌-◌, ◌*◌, ◌/◌, ◌%◌, ◌^◌, Bool, true, false, List, [], ◌∷◌, ◌++◌, Option, none,
  some, ltb, ◌&&◌, if◌then◌else◌, bytes_eq, take, ◌==◌, not,
}
use mathlib.Core.List.{reverse}
use melang.Script.{
  Bytes, Value, int, bool, real, string, Env, Result, ok, err, fault, invalid_type,
  invalid_argument, ◌>>=◌, asserted, string_of, granted,
}

-- The bytes of a number in memory, and the number of such bytes.
unfoldable pub to_memory : ℕ → ℕ → Bytes
to_memory zero n = []
to_memory (suc k) n = n % 256 ∷ to_memory k (n / 256)

unfoldable pub from_memory : Bytes → ℕ
from_memory [] = 0
from_memory (b ∷ bs) = b + 256 * from_memory bs

abbrev pub b2s_of : Bool → Value → Result Value
b2s_of val (int i) = granted val (string (to_memory 8 i))
b2s_of val (real f) = granted val (string (to_memory 8 f))
b2s_of val (bool b) = granted val (string (b ∷ []))
b2s_of val _ = err (invalid_type 1)

-- mln_b2s_process
unfoldable pub b2s : Bool → Env → Result Value
b2s val env = do v ← asserted (env "bin"); b2s_of val v

-- "int", "real" and "bool".
abbrev pub int_name : Bytes
int_name = b'i' ∷ b'n' ∷ b't' ∷ []

abbrev pub real_name : Bytes
real_name = b'r' ∷ b'e' ∷ b'a' ∷ b'l' ∷ []

abbrev pub bool_name : Bytes
bool_name = b'b' ∷ b'o' ∷ b'o' ∷ b'l' ∷ []

-- `data[0]`; of the empty string it is no byte of the string.
abbrev pub first_byte : Bool → Bytes → Result Value
first_byte val [] = fault
first_byte val (b ∷ bs) = granted val (bool b)

-- At most eight bytes are copied over a zero.
abbrev pub s2b_of : Bool → Bytes → Bytes → Result Value
s2b_of val s t =
    if bytes_eq t int_name
    then granted val (int (from_memory (take 8 s)))
    else (if bytes_eq t real_name
        then granted val (real (from_memory (take 8 s)))
        else (if bytes_eq t bool_name then first_byte val s else err (invalid_argument 2)))

-- mln_s2b_process
unfoldable pub s2b : Bool → Env → Result Value
s2b val env = do
  v ← asserted (env "s")
  s ← string_of 1 v
  w ← asserted (env "type")
  t ← string_of 2 w
  s2b_of val s t

-- The loop of bin2int from the last byte backwards, on the bytes in that order: the byte `j` is
-- shifted by 8 * j, for eight bytes at most.
unfoldable pub bin2int_loop : Bytes → ℕ → ℕ → ℕ
bin2int_loop [] j i = i
bin2int_loop (b ∷ bs) j i =
    let rest = bin2int_loop bs (j + 1) (bit_or i (b * 2 ^ (j * 8) % 2 ^ 64)) in
    if ltb j 8 then rest else i

-- mln_bin2int_process
unfoldable pub bin2int : Bool → Env → Result Value
bin2int val env = do
  v ← asserted (env "bin")
  s ← string_of 1 v
  granted val (int (bin2int_loop (reverse s) 0 0))

-- The loop of int2bin for `t` from 0: the byte `t` from the right is `(i >> (t << 3)) & 0xff`.
unfoldable pub int2bin_loop : ℕ → ℕ → ℕ → Bytes → Bytes
int2bin_loop zero t i buf = buf
int2bin_loop (suc k) t i buf = int2bin_loop k (t + 1) i (bit_and (i / 2 ^ (t * 8) % 256) 0xff ∷ buf)

abbrev pub int2bin_of : Bool → Value → Result Value
int2bin_of val (int i) = granted val (string (int2bin_loop 8 0 i []))
int2bin_of val _ = err (invalid_type 1)

-- mln_int2bin_process
unfoldable pub int2bin : Bool → Env → Result Value
int2bin val env = do v ← asserted (env "i"); int2bin_of val v

-- The loop of bin2real: the last bytes, at most eight, at the end of a buffer of zeros.
unfoldable pub bin2real_loop : Bytes → ℕ → Bytes → Bytes
bin2real_loop bs zero buf = buf
bin2real_loop [] (suc k) buf = bin2real_loop [] k (0 ∷ buf)
bin2real_loop (b ∷ bs) (suc k) buf = bin2real_loop bs k (b ∷ buf)

-- mln_bin2real_process
unfoldable pub bin2real : Bool → Env → Result Value
bin2real val env = do
  v ← asserted (env "bin")
  s ← string_of 1 v
  granted val (real (from_memory (bin2real_loop (reverse s) 8 [])))

abbrev pub real2bin_of : Bool → Value → Result Value
real2bin_of val (real f) = granted val (string (to_memory 8 f))
real2bin_of val _ = err (invalid_type 1)

-- mln_real2bin_process
unfoldable pub real2bin : Bool → Env → Result Value
real2bin val env = do v ← asserted (env "r"); real2bin_of val v
