-- ===== src/File.antt =====
-- lib_src/file/mln_lang_file.c: the set File. A File object has the members fd and errno; the resource
-- "file_fd" of the context is a tree of the descriptors to be closed with it.
pub mod Flags
pub mod Calls
pub mod Keeps
pub mod Owns
pub mod Change
pub mod Run
pub mod Uses
pub mod Stale
mod Tests
use Prim.Native.String.{String}
use melang.Base.{
  ℕ, ◌+◌, ◌-◌, ◌%◌, ◌^◌, Bool, List, [], ◌∷◌, Option, none, some, ◌==◌, leb, count, erase,
  if◌then◌else◌,
}
use melang.Script.{
  Bytes, Value, int, obj, Symbol, var, other, Env, Result, ok, err, fault, message, ◌>>=◌,
}

-- What mln_lang_set_member_search finds on an object for "fd" and "errno", whether its set is File, and
-- whether fd is marked as not to be modified by the script.
pub record Object : Type 0 where
  pub is_file : Bool
  pub fd : Option Value
  pub errno : Option Value
  pub locked : Bool

-- The objects, the tree "file_fd", the descriptors that the library has got from open and not closed
-- since, and how often it has closed another one.
pub record State : Type 0 where
  pub objects : ℕ → Object
  pub file_fd : List ℕ
  pub opened : List ℕ
  pub strays : ℕ

-- The conversion of a 64-bit integer to int, as its 32 bits, and its sign before that.
abbrev pub to_int : ℕ → ℕ
to_int n = n % 2 ^ 32

abbrev pub is_negative : ℕ → Bool
is_negative n = leb (2 ^ 63) n

-- -1 in 64 bits.
abbrev pub minus_one : ℕ
minus_one = 2 ^ 64 - 1

-- close of a descriptor.
abbrev pub close : ℕ → State → State
close d s =
    if count d s.opened == 0
    then record s { strays = s.strays + 1 }
    else record s { opened = erase d s.opened }

abbrev pub set_object : ℕ → Object → State → State
set_object o f s = record s { objects = λ p. if o == p then f else s.objects p }

abbrev pub set_fd : ℕ → ℕ → State → State
set_fd o n s = set_object o (record (s.objects o) { fd = some (int n) }) s

-- The checks with which each method starts.
abbrev pub object_of : Value → Result ℕ
object_of (obj o) = ok o
object_of v = err (message "'this' not object.")

abbrev pub this_value : Option Symbol → Result Value
this_value none = err (message "Lack of 'this'.")
this_value (some other) = fault
this_value (some (var v)) = ok v

abbrev pub this_object : Env → Result ℕ
this_object env = this_value (env "this") >>= object_of

abbrev pub file_of : State → ℕ → Result ℕ
file_of s o =
    if (s.objects o).is_file then ok o else err (message "Invalid set type, File object required.")

abbrev pub int_member : String → String → Option Value → Result ℕ
int_member lack invalid none = err (message lack)
int_member lack invalid (some (int n)) = ok n
int_member lack invalid (some v) = err (message invalid)

abbrev pub fd_of : State → ℕ → Result (ℕ × ℕ)
fd_of s o = do
  n ← int_member "Lack of member 'fd'." "Invalid type of 'fd'." (s.objects o).fd
  ok (o, n)

-- The object that a method is called on, with its fd.
abbrev pub this_file : Env → State → Result (ℕ × ℕ)
this_file env s = do o ← this_object env; p ← file_of s o; fd_of s p

-- mln_lang_file_set_errno
unfoldable pub set_errno : Env → ℕ → State → Result State
set_errno env e s = do
  o ← this_object env
  n ← int_member "Lack of member 'errno'." "Invalid type of 'errno'." (s.objects o).errno
  ok (set_object o (record (s.objects o) { errno = some (int e) }) s)

-- The end of the context: mln_rbtree_free closes each descriptor of the tree.
abbrev pub close_all : List ℕ → State → State
close_all [] s = s
close_all (d ∷ ds) s = close_all ds (close d s)

abbrev pub ctx_free : State → State
ctx_free s = record (close_all s.file_fd s) { file_fd = [] }
