-- ===== src/Strings/Integer/RoundTrip.antt =====
-- lib_src/string/mln_lang_string.c: numbers, reals and booleans to bytes and back.
use Prim.Native.Nat.{bit_and}
use mathlib.Core.List.{reverse}
use melang.Base.{
  ℕ, zero, suc, ◌+◌, ◌*◌, ◌/◌, ◌%◌, ◌^◌, ◌<◌, ◌≤◌, ◌≡◌, refl, ap, ◌∙◌, true, [], ◌∷◌, ◌==◌, ==_iff,
  lt→ltb, some, take, bytes_eq, if◌then◌else◌, length, All, arith, every, every-lookup,
}
use native.Mathlib.Numerals.{towards_suc}
use native.Mathlib.Nat.{pow-le-pow_right, one-le-pow, mod-eq_of_lt, pow-suc}
use text.Mathlib.Text.{◌==◌ as str_eq}
use melang.Base.Bits.{bit_or-eq-add}
use melang.Script.{Bytes, int, bool, real, string, Env, var, ok, given}
use melang.Strings.Integer.{
  to_memory, from_memory, b2s, s2b, int_name, real_name, bool_name, bin2int, bin2int_loop, int2bin,
  int2bin_loop, bin2real, bin2real_loop, real2bin,
}

-- The value of the bytes of a number, the highest first, behind what stands to their left.
abbrev pub big_endian : ℕ → Bytes → ℕ
big_endian acc [] = acc
big_endian acc (b ∷ bs) = big_endian (acc * 256 + b) bs

low_byte : (x : ℕ) → x < 256 → bit_and x 0xff ≡ x
unfolding every
low_byte x h = (==_iff _ _).0 (every-lookup (λ x. bit_and x 0xff == x) 256 x h refl)

-- The bytes that int2bin writes.
int2bin_bytes :
    (i : ℕ)
    → int2bin_loop 8 0 i []
      ≡ i / 2 ^ 56 % 256
        ∷ i / 2 ^ 48 % 256
        ∷ i / 2 ^ 40 % 256
        ∷ i / 2 ^ 32 % 256
        ∷ i / 2 ^ 24 % 256
        ∷ i / 2 ^ 16 % 256
        ∷ i / 2 ^ 8 % 256
        ∷ i % 256
        ∷ []
unfolding int2bin_loop
int2bin_bytes i = ground (
  arith,
  low_byte (i / 2 ^ 56 % 256),
  low_byte (i / 2 ^ 48 % 256),
  low_byte (i / 2 ^ 40 % 256),
  low_byte (i / 2 ^ 32 % 256),
  low_byte (i / 2 ^ 24 % 256),
  low_byte (i / 2 ^ 16 % 256),
  low_byte (i / 2 ^ 8 % 256),
  low_byte (i % 256),
)

shift_byte : (j : ℕ) → 2 ^ ((j + 1) * 8) ≡ 256 * 2 ^ (j * 8)
shift_byte j =
    let split : (j + 1) * 8 ≡ j * 8 + 8 = omega arith in rw split (simp towards_suc (omega arith))

shift_fits : (j : ℕ) → j ≤ 8 → 2 ^ (j * 8) ≤ 2 ^ 64
shift_fits j h = pow-le-pow_right {n = 2} (omega arith) {i = j * 8} {j = 64} (omega arith)

byte_times : (b p : ℕ) → b < 256 → 0 < p → b * p < 256 * p
byte_times b p h hp = grind arith

byte_above : (b i p r : ℕ) → b < 256 → i < p → r ≡ 256 * p → i + b * p < r
byte_above b i p r h hi e = grind arith

-- The sum that bin2int computes from eight bytes at most, the lowest first.
bin2int_sum :
    (bs : Bytes) (j i : ℕ)
    → All (λ b. b < 256) bs
    → i < 2 ^ (j * 8)
    → length bs + j ≤ 8
    → bin2int_loop bs j i ≡ i + from_memory bs * 2 ^ (j * 8)
unfolding bin2int_loop from_memory
bin2int_sum [] j i hb hi fits = omega arith
bin2int_sum (b ∷ bs) j i (h, hb) hi fits =
    let top : b * 2 ^ (j * 8) < 256 * 2 ^ (j * 8) =
      byte_times b (2 ^ (j * 8)) h (one-le-pow (j * 8) 2 (omega arith)) in
    let small : b * 2 ^ (j * 8) < 2 ^ 64 =
      omega (arith, top, shift_byte j, shift_fits (j + 1) (omega arith)) in
    let within : i + b * 2 ^ (j * 8) < 2 ^ ((j + 1) * 8) =
      byte_above b i (2 ^ (j * 8)) (2 ^ ((j + 1) * 8)) h hi (shift_byte j) in
    let rest = bin2int_sum bs (j + 1) (i + b * 2 ^ (j * 8)) hb within (omega arith) in
    rw (lt→ltb j 8 (omega arith), mod-eq_of_lt small, bit_or-eq-add (j * 8) i b hi)
      (rest ∙ rw (shift_byte j) (omega arith))

-- Where memory is granted, int2bin writes eight bytes from which bin2int gives back the integer,
-- for any of 64 bits, so for a negative one too.
pub bin2int-int2bin :
    (i : ℕ)
    → i < 2 ^ 64
    → (bs : Bytes) × (int2bin true (given (int i)) ≡ ok (string bs))
      × (length bs ≡ 8)
      × (bin2int true (given (string bs)) ≡ ok (int i))
unfolding int2bin bin2int
bin2int-int2bin i h =
    let low : Bytes =
      i % 256
      ∷ i / 2 ^ 8 % 256
      ∷ i / 2 ^ 16 % 256
      ∷ i / 2 ^ 24 % 256
      ∷ i / 2 ^ 32 % 256
      ∷ i / 2 ^ 40 % 256
      ∷ i / 2 ^ 48 % 256
      ∷ i / 2 ^ 56 % 256
      ∷ [] in
    let sum = bin2int_sum low 0 0 (omega arith) (omega arith) (omega arith) in
    let whole : from_memory low ≡ i = unfold from_memory in omega arith in
    (
      reverse low,
      ap (λ (b : Bytes). ok (string b)) (int2bin_bytes i),
      refl,
      ap (λ (n : ℕ). ok (int n)) (sum ∙ omega (arith, whole)),
    )

-- Where memory is granted, bin2int of eight bytes at most gives their value, the highest byte
-- first.
bin2int-value :
    (bs : Bytes)
    → All (λ b. b < 256) (reverse bs)
    → length (reverse bs) ≤ 8
    → bin2int true (given (string bs)) ≡ ok (int (from_memory (reverse bs)))
unfolding bin2int
bin2int-value bs hb fits =
    ap (λ (n : ℕ). ok (int n))
      (bin2int_sum (reverse bs) 0 0 hb (omega arith) (omega arith) ∙ omega arith)

from_memory-to_memory : (k n : ℕ) → n < 256 ^ k → from_memory (to_memory k n) ≡ n
unfolding from_memory to_memory
from_memory-to_memory zero n h = omega arith
from_memory-to_memory (suc k) n h =
    omega (arith, from_memory-to_memory k (n / 256) (omega (arith, pow-suc 256 k)))

-- The arguments of s2b.
abbrev pub s2b_env : Bytes → Bytes → Env
s2b_env s t name = if str_eq name "type" then some (var (string t)) else some (var (string s))

-- Where memory is granted, s2b, told the type, gives back the integer of 64 bits, the real or the
-- boolean that b2s copied.
s2b-b2s :
    (n b : ℕ)
    → n < 2 ^ 64
    → (si sr sb : Bytes) × (b2s true (given (int n)) ≡ ok (string si))
      × (s2b true (s2b_env si int_name) ≡ ok (int n))
      × (b2s true (given (real n)) ≡ ok (string sr))
      × (s2b true (s2b_env sr real_name) ≡ ok (real n))
      × (b2s true (given (bool b)) ≡ ok (string sb))
      × (s2b true (s2b_env sb bool_name) ≡ ok (bool b))
unfolding b2s s2b bytes_eq
s2b-b2s n b h =
    let same : from_memory (take 8 (to_memory 8 n)) ≡ n =
      unfold to_memory in from_memory-to_memory 8 n h in
    (
      to_memory 8 n,
      to_memory 8 n,
      b ∷ [],
      refl,
      ap (λ (m : ℕ). ok (int m)) same,
      refl,
      ap (λ (m : ℕ). ok (real m)) same,
      refl,
      refl,
    )

-- Where memory is granted, bin2real gives back the 64 bits of the real whose bytes real2bin
-- copied.
bin2real-real2bin :
    (f : ℕ)
    → f < 2 ^ 64
    → (bs : Bytes) × (real2bin true (given (real f)) ≡ ok (string bs))
      × (bin2real true (given (string bs)) ≡ ok (real f))
unfolding real2bin bin2real
bin2real-real2bin f h = (
  to_memory 8 f,
  refl,
  ap (λ (m : ℕ). ok (real m)) (unfold to_memory bin2real_loop in from_memory-to_memory 8 f h),
)
