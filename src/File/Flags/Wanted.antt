-- ===== src/File/Flags/Wanted.antt =====
-- open of File: what op and prio mean.
use melang.Base.{
  ℕ, ◌+◌, ◌%◌, ◌≡◌, refl, sym, ap, Bool, true, false, not, ◌&&◌, ◌||◌, [], ◌∷◌, none, some, ◌==◌,
  if◌then◌else◌, Bool-cases, ==_iff, inl, inr, subst, arith,
}
use melang.Script.{Bytes}
use melang.File.Flags.{
  Access, rdonly, wronly, rdwr, Flags, Seen, nothing_seen, letter, scan, access_flags, with_append,
  open_get_op, bit_of, open_get_prio,
}

-- Whether a byte stands in a string, and whether all its bytes are r, w, a or +.
abbrev has : ℕ → Bytes → Bool
has b [] = false
has b (c ∷ cs) = (c == b) || has b cs

abbrev all_known : Bytes → Bool
all_known [] = true
all_known (c ∷ cs) = ((c == b'r') || (c == b'w') || (c == b'a') || (c == b'+')) && all_known cs

-- The flags by what stands in the string.
abbrev access_for : Bool → Bool → Access
access_for true false = rdonly
access_for false true = wronly
access_for true true = rdwr
access_for false false = rdwr

abbrev wanted : Bool → Bool → Bool → Bool → Flags
wanted r w a plus = record {
  access = access_for r w;
  creat = w || not r;
  trunc = (w || not r) && not a && not plus;
  append = a;
}

abbrev seen : Bytes → Seen → Seen
seen op s = record {
  r = s.r || has b'r' op;
  w = s.w || has b'w' op;
  a = s.a || has b'a' op;
  notrunc = s.notrunc || has b'+' op;
}

or_false : (b : Bool) → (b || false) ≡ b
or_false true = refl
or_false false = refl

seen_nil : (s : Seen) → seen [] s ≡ s
seen_nil s i = record {
  r = or_false s.r i;
  w = or_false s.w i;
  a = or_false s.a i;
  notrunc = or_false s.notrunc i;
}

or_true : (b : Bool) → (b || true) ≡ true
or_true true = refl
or_true false = refl

-- The string is read from its first byte on.
abbrev IsScanned : Bytes → Seen → Type 0
IsScanned op s = scan op s ≡ (if all_known op then some (seen op s) else none)

with_letter :
    (c : ℕ) (cs : Bytes) (s t : Seen)
    → letter c s ≡ some t
    → all_known (c ∷ cs) ≡ all_known cs
    → seen (c ∷ cs) s ≡ seen cs t
    → IsScanned cs t
    → IsScanned (c ∷ cs) s
unfolding scan
with_letter c cs s t one known same ih = rw (one, known, same) ih

scan-seen : (op : Bytes) (s : Seen) → IsScanned op s
unfolding scan
scan-seen [] s = sym (ap some (seen_nil s))
scan-seen (c ∷ cs) s = elim (Bool-cases (c == b'r')) [
  | inl y ↦
      subst (λ d. IsScanned (d ∷ cs) s) (sym ((==_iff c b'r').0 y))
        (with_letter b'r' cs s (record s { r = true }) refl refl
          (λ i. record {
            r = or_true s.r i;
            w = s.w || has b'w' cs;
            a = s.a || has b'a' cs;
            notrunc = s.notrunc || has b'+' cs;
          })
          (scan-seen cs (record s { r = true })))
  | inr no_r ↦ elim (Bool-cases (c == b'w')) [
    | inl y ↦
        subst (λ d. IsScanned (d ∷ cs) s) (sym ((==_iff c b'w').0 y))
          (with_letter b'w' cs s (record s { w = true }) refl refl
            (λ i. record {
              r = s.r || has b'r' cs;
              w = or_true s.w i;
              a = s.a || has b'a' cs;
              notrunc = s.notrunc || has b'+' cs;
            })
            (scan-seen cs (record s { w = true })))
    | inr no_w ↦ elim (Bool-cases (c == b'a')) [
      | inl y ↦
          subst (λ d. IsScanned (d ∷ cs) s) (sym ((==_iff c b'a').0 y))
            (with_letter b'a' cs s (record s { a = true }) refl refl
              (λ i. record {
                r = s.r || has b'r' cs;
                w = s.w || has b'w' cs;
                a = or_true s.a i;
                notrunc = s.notrunc || has b'+' cs;
              })
              (scan-seen cs (record s { a = true })))
      | inr no_a ↦ elim (Bool-cases (c == b'+')) [
        | inl y ↦
            subst (λ d. IsScanned (d ∷ cs) s) (sym ((==_iff c b'+').0 y))
              (with_letter b'+' cs s (record s { notrunc = true }) refl refl
                (λ i. record {
                  r = s.r || has b'r' cs;
                  w = s.w || has b'w' cs;
                  a = s.a || has b'a' cs;
                  notrunc = or_true s.notrunc i;
                })
                (scan-seen cs (record s { notrunc = true })))
        | inr no_notrunc ↦ rw (no_r, no_w, no_a, no_notrunc) refl
      ]
    ]
  ]
]

flags-wanted : (r w a plus : Bool) → with_append a plus (access_flags r w) ≡ wanted r w a plus
flags-wanted r w a plus = ground arith

-- open takes a string for op just if its bytes are r, w, a and +, in any order and number. It then reads
-- with r and without w, writes with w and without r, and does both otherwise; it makes a file that is
-- missing unless it only reads; it appends with a, and truncates where it may make a file and there is
-- neither a nor +.
pub open_get_op-wanted :
    (op : Bytes)
    → open_get_op op ≡ (
        if all_known op
        then some (wanted (has b'r' op) (has b'w' op) (has b'a' op) (has b'+' op))
        else none)
unfolding open_get_op
open_get_op-wanted op =
    rw (scan-seen op nothing_seen) ground
      (arith, flags-wanted (has b'r' op) (has b'w' op) (has b'a' op) (has b'+' op))

-- One more bit of a remainder.
bit_1 : (p : ℕ) → p % 2 ≡ p % 1 + bit_of p 0x1
bit_1 p = ground arith

bit_2 : (p : ℕ) → p % 4 ≡ p % 2 + bit_of p 0x2
bit_2 p = ground arith

bit_4 : (p : ℕ) → p % 8 ≡ p % 4 + bit_of p 0x4
bit_4 p = ground arith

bit_8 : (p : ℕ) → p % 16 ≡ p % 8 + bit_of p 0x8
bit_8 p = ground arith

bit_16 : (p : ℕ) → p % 32 ≡ p % 16 + bit_of p 0x10
bit_16 p = ground arith

bit_32 : (p : ℕ) → p % 64 ≡ p % 32 + bit_of p 0x20
bit_32 p = ground arith

bit_64 : (p : ℕ) → p % 128 ≡ p % 64 + bit_of p 0x40
bit_64 p = ground arith

bit_128 : (p : ℕ) → p % 256 ≡ p % 128 + bit_of p 0x80
bit_128 p = ground arith

bit_256 : (p : ℕ) → p % 512 ≡ p % 256 + bit_of p 0x100
bit_256 p = ground arith

open_get_prio-low : (prio : ℕ) → open_get_prio prio ≡ prio % 512
unfolding open_get_prio
open_get_prio-low prio = omega (
  arith,
  bit_1 prio,
  bit_2 prio,
  bit_4 prio,
  bit_8 prio,
  bit_16 prio,
  bit_32 prio,
  bit_64 prio,
  bit_128 prio,
  bit_256 prio,
)
