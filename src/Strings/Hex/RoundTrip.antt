-- ===== src/Strings/Hex/RoundTrip.antt =====
-- lib_src/string/mln_lang_string.c: hex2bin and bin2hex together.
use Prim.Native.Nat.{bit_and, bit_or}
use melang.Base.{
  ℕ, ◌+◌, ◌-◌, ◌*◌, ◌/◌, ◌%◌, ◌^◌, ◌<◌, ◌≡◌, refl, sym, ap, ◌∙◌, true, [], ◌∷◌, ◌++◌, some, ◌==◌,
  ==_iff, leb, ◌&&◌, if◌then◌else◌, length, All, arith, every, every-lookup, map, length-map, inl,
  inr, Option-cases,
}
use mathlib.Core.List.{append-nil, append_assoc}
use melang.Script.{Bytes, string, ok, given}
use melang.Strings.Hex.{digit, hex_loop, hex2bin, hex_digit, hex_digits, bin2hex}

abbrev pub IsByte : ℕ → Type 0
IsByte b = b < 256

-- Facts about one byte, checked at each of its values.
low_digit : (x : ℕ) → x < 256 → bit_and x 0xf ≡ x % 16
unfolding every
low_digit x h = (==_iff _ _).0 (every-lookup (λ x. bit_and x 0xf == x % 16) 256 x h refl)

high_digit : (v : ℕ) → v < 16 → bit_and (v * 16 % 256) 0xf0 ≡ v * 16
unfolding every
high_digit v h =
    (==_iff _ _).0 (every-lookup (λ v. bit_and (v * 16 % 256) 0xf0 == v * 16) 16 v h refl)

join_digits : (b : ℕ) → b < 256 → bit_or (b / 16 * 16) (b % 16) ≡ b
unfolding every
join_digits b h =
    (==_iff _ _).0 (every-lookup (λ b. bit_or (b / 16 * 16) (b % 16) == b) 256 b h refl)

digit-hex_digit : (v : ℕ) → v < 16 → digit (hex_digit v) ≡ some v
unfolding digit
digit-hex_digit v h = ground arith

digit-lt : (c v : ℕ) → digit c ≡ some v → v < 16
unfolding digit
digit-lt c v h = ground arith

abbrev pub upper_digit : ℕ → ℕ
upper_digit c = if leb b'a' c && leb c b'f' then c - 32 else c

hex_digit-digit : (c v : ℕ) → digit c ≡ some v → hex_digit v ≡ upper_digit c
unfolding digit
hex_digit-digit c v h = ground arith

hex_loop-hex_digits :
    (bs : Bytes) (i : ℕ) (out : Bytes) (cur : ℕ)
    → All IsByte bs
    → i % 2 ≡ 0
    → hex_loop (hex_digits bs) i (out, cur) ≡ some (out ++ bs)
unfolding hex_loop hex_digits
hex_loop-hex_digits [] i out cur h e = ap some (sym (append-nil out))
hex_loop-hex_digits (b ∷ bs) i out cur (h, hs) e = ground (
  arith,
  low_digit (b / 16),
  low_digit b,
  high_digit (b / 16),
  join_digits b,
  digit-hex_digit (b / 16),
  digit-hex_digit (b % 16),
  append_assoc out (b ∷ []) bs,
  hex_loop-hex_digits bs (i + 1 + 1) (out ++ b ∷ []) (b / 16 * 16) hs,
)

two_digits :
    (c d v w i : ℕ) (out : Bytes) (cur : ℕ) (s r : Bytes)
    → digit c ≡ some v
    → digit d ≡ some w
    → i % 2 ≡ 0
    → hex_loop (c ∷ d ∷ s) i (out, cur) ≡ some r
    → hex_loop s (i + 1 + 1) (out ++ (v * 16 + w) ∷ [], v * 16) ≡ some r
unfolding hex_loop
two_digits c d v w i out cur s r ev ew e h = ground (
  arith,
  h,
  high_digit v (digit-lt c v ev),
  join_digits (v * 16 + w) (omega (arith, digit-lt c v ev, digit-lt d w ew)),
  digit-lt d w ew,
)

-- The bytes that a loop over an even number of digits has added.
hex_loop-inv :
    (s : Bytes) (i : ℕ) (out : Bytes) (cur : ℕ) (r : Bytes)
    → length s % 2 ≡ 0
    → i % 2 ≡ 0
    → hex_loop s i (out, cur) ≡ some r
    → (bs : Bytes) × (r ≡ out ++ bs) × (hex_digits bs ≡ map upper_digit s) × All IsByte bs
unfolding hex_loop hex_digits
hex_loop-inv [] i out cur r even e h = ([], ground (arith, append-nil out), refl, tt)
hex_loop-inv (c ∷ []) i out cur r even e h = absurd (omega arith)
hex_loop-inv (c ∷ d ∷ s) i out cur r even e h = elim (Option-cases (digit c)) [
  | inl bad ↦ absurd (ground (arith, h))
  | inr (v, ev) ↦ elim (Option-cases (digit d)) [
    | inl bad ↦ absurd (ground (arith, h))
    | inr (w, ew) ↦
        let hv = digit-lt c v ev in
        let hw = digit-lt d w ew in
        let b : ℕ = v * 16 + w in
        let (bs, er, eu, hb) =
          hex_loop-inv s (i + 1 + 1) (out ++ b ∷ []) (v * 16) r (omega arith) (omega arith)
            (two_digits c d v w i out cur s r ev ew e h) in
        (
          b ∷ bs,
          er ∙ append_assoc out (b ∷ []) bs,
          ground (
            arith,
            eu,
            low_digit (b / 16),
            low_digit b,
            hex_digit-digit c v ev,
            hex_digit-digit d w ew,
          ),
          (omega arith, hb),
        )
  ]
]

length-hex_digits : (bs : Bytes) → length (hex_digits bs) ≡ length bs * 2
unfolding hex_digits
length-hex_digits [] = refl
length-hex_digits (b ∷ bs) = omega (arith, length-hex_digits bs)

-- bin2hex writes two digits for each byte, and hex2bin reads the bytes back from them, where memory
-- is granted and the digits can be counted in 32 bits.
pub hex2bin-bin2hex :
    (bs : Bytes)
    → All IsByte bs
    → length bs * 2 < 2 ^ 32
    → (h : Bytes) × (bin2hex true true (given (string bs)) ≡ ok (string h))
      × (length h ≡ length bs * 2)
      × (hex2bin true true (given (string h)) ≡ ok (string bs))
unfolding hex2bin bin2hex
hex2bin-bin2hex bs hb fits = (
  hex_digits bs,
  ground (arith, fits),
  length-hex_digits bs,
  ground (arith, fits, length-hex_digits bs, hex_loop-hex_digits bs 0 [] 0 hb),
)

-- Where memory is granted, bin2hex gives back the text that hex2bin has read, in capitals, and
-- what hex2bin has made of it are bytes.
bin2hex-hex2bin :
    (h bs : Bytes)
    → hex2bin true true (given (string h)) ≡ ok (string bs)
    → (bin2hex true true (given (string bs)) ≡ ok (string (map upper_digit h))) × All IsByte bs
unfolding hex2bin bin2hex
bin2hex-hex2bin h bs run =
    let even : length h % 2 ≡ 0 = ground (arith, run) in
    let fits : length h < 2 ^ 32 = ground (arith, run) in
    let looped : hex_loop h 0 ([], 0) ≡ some bs = ground (arith, run) in
    let (bs', same, digits, hb) = hex_loop-inv h 0 [] 0 bs even refl looped in
    let eh : hex_digits bs ≡ map upper_digit h = rw same digits in
    (ground (arith, eh, ap length eh, length-hex_digits bs, length-map h upper_digit), rw same hb)
