-- ===== src/File/Flags.antt =====
-- open of File: the flags and the mode that are made of the arguments op and prio.
pub mod Wanted
use melang.Base.{
  ℕ, ◌+◌, ◌/◌, ◌%◌, ◌≡◌, refl, sym, ap, Bool, true, false, not, ◌&&◌, ◌||◌, [], ◌∷◌, Option, none,
  some, ◌==◌, if◌then◌else◌, ◌>>=◌, Bool-cases, ==_iff, inl, inr, subst, arith,
}
use melang.Script.{Bytes}

-- The flags of open(2) that are used.
pub data Access : Type 0 where
  rdonly : Access
  wronly : Access
  rdwr : Access

pub record Flags : Type 0 where
  pub access : Access
  pub creat : Bool
  pub trunc : Bool
  pub append : Bool

-- The variables r, w, a and notrunc of the loop.
pub record Seen : Type 0 where
  pub r : Bool
  pub w : Bool
  pub a : Bool
  pub notrunc : Bool

abbrev pub nothing_seen : Seen
nothing_seen = record { r = false; w = false; a = false; notrunc = false }

abbrev pub letter : ℕ → Seen → Option Seen
letter c s =
    if c == b'r'
    then some (record s { r = true })
    else (if c == b'w'
        then some (record s { w = true })
        else (if c == b'a'
            then some (record s { a = true })
            else (if c == b'+' then some (record s { notrunc = true }) else none)))

unfoldable pub scan : Bytes → Seen → Option Seen
scan [] s = some s
scan (c ∷ cs) s = letter c s >>= scan cs

-- Reading and writing, and the part after the loop that a and + change.
abbrev pub access_flags : Bool → Bool → Flags
access_flags true true = record { access = rdwr; creat = true; trunc = true; append = false }
access_flags true false = record { access = rdonly; creat = false; trunc = false; append = false }
access_flags false true = record { access = wronly; creat = true; trunc = true; append = false }
access_flags false false = record { access = rdwr; creat = true; trunc = true; append = false }

abbrev pub with_append : Bool → Bool → Flags → Flags
with_append true notrunc f = record f { trunc = false; append = true }
with_append false true f = record f { trunc = false; append = false }
with_append false false f = f

abbrev pub flags_of : Option Seen → Option Flags
flags_of none = none
flags_of (some s) = some (with_append s.a s.notrunc (access_flags s.r s.w))

-- mln_lang_file_open_get_op; `none` is -1.
unfoldable pub open_get_op : Bytes → Option Flags
open_get_op op = flags_of (scan op nothing_seen)

abbrev pub bit_of : ℕ → ℕ → ℕ
bit_of prio b = if prio / b % 2 == 0 then 0 else b

-- mln_lang_file_open_get_prio, with the bits of S_IXOTH and so on as POSIX has them.
unfoldable pub open_get_prio : ℕ → ℕ
open_get_prio prio =
    bit_of prio 0x1
    + bit_of prio 0x2
    + bit_of prio 0x4
    + bit_of prio 0x8
    + bit_of prio 0x10
    + bit_of prio 0x20
    + bit_of prio 0x40
    + bit_of prio 0x80
    + bit_of prio 0x100
