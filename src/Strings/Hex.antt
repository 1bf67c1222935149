-- ===== src/Strings/Hex.antt =====
-- lib_src/string/mln_lang_string.c: hex2bin and bin2hex.
pub mod RoundTrip
use Prim.Native.Nat.{bit_and, bit_or}
use melang.Base.{
  ℕ, suc, ◌+◌, ◌-◌, ◌*◌, ◌/◌, ◌%◌, ◌^◌, Bool, true, false, List, [], ◌∷◌, ◌++◌, Option, none, some,
  ◌==◌, ltb, leb, ◌&&◌, if◌then◌else◌, length,
}
use melang.Script.{
  Bytes, Value, string, Env, Result, ok, err, fault, invalid_type, no_memory, ◌>>=◌, asserted,
  string_of, granted,
}

-- The value of a hexadecimal digit, in either case.
unfoldable pub digit : ℕ → Option ℕ
digit v =
    if leb b'0' v && leb v b'9'
    then some (v - b'0')
    else (if leb b'a' v && leb v b'f'
        then some (v - b'a' + 10)
        else (if leb b'A' v && leb v b'F' then some (v - b'A' + 10) else none))

-- What one digit does to `buf`: at an even place it sets the byte `cur`, at an odd one it completes
-- it and goes on to the next.
abbrev pub next_byte : ℕ → Bytes → ℕ → ℕ → Bytes × ℕ
next_byte i out cur v =
    if i % 2 == 0 then (out, bit_and (v * 16 % 256) 0xf0) else (out ++ bit_or cur v ∷ [], cur)

-- The loop over the digits: `i`, the bytes that are complete, and the byte that is not.
unfoldable pub hex_loop : Bytes → ℕ → Bytes × ℕ → Option Bytes
hex_loop [] i (out, cur) = some out
hex_loop (c ∷ cs) i (out, cur) = elim (digit c) [
  | none ↦ none
  | some v ↦ hex_loop cs (i + 1) (next_byte i out cur v)
]

abbrev pub bytes_or : Bool → Option Bytes → Result Value
bytes_or val none = err (invalid_type 1)
bytes_or val (some bs) = granted val (string bs)

-- The counters have 32 bits: a longer string leaves bytes of the buffer unset.
abbrev pub hex2bin_of : Bool → Bool → Bytes → Result Value
hex2bin_of buf val s =
    if length s % 2 == 0
    then (if buf
        then (if ltb (length s) (2 ^ 32) then bytes_or val (hex_loop s 0 ([], 0)) else fault)
        else err no_memory)
    else err (invalid_type 1)

-- mln_hex2bin_process; the buffer and the value that is returned may be refused.
unfoldable pub hex2bin : Bool → Bool → Env → Result Value
hex2bin buf val env = do v ← asserted (env "hex"); s ← string_of 1 v; hex2bin_of buf val s

-- The digit of a value below 16; letters are capitals.
abbrev pub hex_digit : ℕ → ℕ
hex_digit v = if leb v 9 then b'0' + v else v - 10 + b'A'

unfoldable pub hex_digits : Bytes → Bytes
hex_digits [] = []
hex_digits (b ∷ bs) = hex_digit (bit_and (b / 16) 0xf) ∷ hex_digit (bit_and b 0xf) ∷ hex_digits bs

abbrev pub bin2hex_of : Bool → Bool → Bytes → Result Value
bin2hex_of buf val s =
    if buf
    then (if ltb (length s * 2) (2 ^ 32) then granted val (string (hex_digits s)) else fault)
    else err no_memory

-- mln_bin2hex_process
unfoldable pub bin2hex : Bool → Bool → Env → Result Value
bin2hex buf val env = do v ← asserted (env "bin"); s ← string_of 1 v; bin2hex_of buf val s
