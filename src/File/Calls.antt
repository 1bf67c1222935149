-- ===== src/File/Calls.antt =====
-- The methods of File. What the calls of the system return is an argument of each.
use Prim.Native.String.{String}
use melang.Base.{
  ℕ, Bool, true, false, ◌||◌, [], ◌∷◌, ◌++◌, Option, none, some, ◌==◌, leb, count, erase, length,
  take, bytes_eq, if◌then◌else◌, ◌^◌,
}
use melang.Script.{
  Bytes, Value, nil, int, bool, string, Symbol, var, other, Env, Result, ok, err, fault, no_memory,
  message, granted, ◌>>=◌,
}
use melang.File.{
  State, to_int, is_negative, minus_one, close, set_object, set_fd, this_object, this_file, file_of,
  set_errno,
}
use melang.File.Flags.{Flags, open_get_op, open_get_prio}

-- The number EBADF, the text of strerror, and `data.i` of a value that is no integer.
pub record Libc : Type 0 where
  pub ebadf : ℕ
  pub strerror : ℕ → Bytes
  pub data_i : Value → ℕ

pub data Whence : Type 0 where
  seek_set : Whence
  seek_cur : Whence
  seek_end : Whence

-- The call of the system that a method makes, with what it is given.
pub data Call : Type 0 where
  open_call : Bytes → Flags → ℕ → Call
  lseek_call : ℕ → ℕ → Whence → Call
  read_call : ℕ → ℕ → Call
  write_call : ℕ → Bytes → Call
  fstat_call : ℕ → Call

-- What that call returns, `none` for -1, and errno behind it; what is granted: a buffer (for the path, or
-- to read into), a node of the tree, and the value that the method returns.
pub record Io : Type 0 where
  pub fd : Option ℕ
  pub position : Option ℕ
  pub bytes : Option Bytes
  pub count : Option ℕ
  pub errno : ℕ
  pub buf : Bool
  pub node : Bool
  pub value : Bool

pub record Outcome : Type 0 where
  pub state : State
  pub call : Option Call
  pub answer : Result Value

abbrev pub outcome : State → Option Call → Result Value → Outcome
outcome s c r = record { state = s; call = c; answer = r }

-- Where the checks and arguments are there, the method; or their error.
abbrev pub checked {ℓ} : {A : Type ℓ} → Result A → State → (A → Outcome) → Outcome
checked (ok a) s f = f a
checked (err e) s f = outcome s none (err e)
checked fault s f = outcome s none fault

-- errno is set; where that is refused, `s` is what is left.
abbrev pub then_set : Result State → State → Option Call → (State → Result Value) → Outcome
then_set (ok s') s c answer = outcome s' c (answer s')
then_set (err e) s c answer = outcome s c (err e)
then_set fault s c answer = outcome s c fault

abbrev pub argument : Option Symbol → Result Value
argument none = err (message "Argument missing.")
argument (some other) = fault
argument (some (var v)) = ok v

abbrev pub string_arg : String → Value → Result Bytes
string_arg error_text (string s) = ok s
string_arg error_text v = err (message error_text)

abbrev pub int_arg : String → Value → Result ℕ
int_arg error_text (int n) = ok n
int_arg error_text v = err (message error_text)

-- 0644 where the argument is nil.
abbrev pub prio_arg : Value → Result ℕ
prio_arg nil = ok 0x1a4
prio_arg v = int_arg "'prio' demand integer." v

pub record OpenArgs : Type 0 where
  pub object : ℕ
  pub path : Bytes
  pub op : Bytes
  pub prio : ℕ

abbrev pub open_args : Env → State → Result OpenArgs
open_args env s = do
  (o, n) ← this_file env s
  path ← argument (env "path") >>= string_arg "'path' demand string."
  op ← argument (env "op") >>= string_arg "'op' demand string."
  prio ← argument (env "prio") >>= prio_arg
  ok (record { object = o; path = path; op = op; prio = to_int prio })

abbrev pub lock : ℕ → State → State
lock o s = set_object o (record (s.objects o) { locked = true }) s

-- A new descriptor and its node in the tree. Where the node is refused, the descriptor is closed and
-- stays the fd of the object.
abbrev pub with_node : Bool → Bool → ℕ → ℕ → State → State × Result Value
with_node true value o d s = (lock o (record s { file_fd = d ∷ s.file_fd }), granted value (bool 1))
with_node false value o d s = (close d s, err no_memory)

abbrev pub with_answer : Call → State × Result Value → Outcome
with_answer c (s, r) = outcome s (some c) r

-- The rest of open once errno is set; where that is refused, the descriptor is closed.
abbrev pub registered : Call → Io → ℕ → ℕ → State → Result State → Outcome
registered c io o d s (ok t) = with_answer c (with_node io.node io.value o d t)
registered c io o d s (err e) = outcome (set_fd o minus_one (close d s)) (some c) (err e)
registered c io o d s fault = outcome s (some c) fault

-- What follows on open(2): the object gets what it returned, whatever it had.
abbrev pub returned : Call → Io → Env → ℕ → Option ℕ → State → Outcome
returned c io env o none s =
    let s' = set_fd o minus_one s in
    then_set (set_errno env io.errno s') s' (some c) (λ t. granted io.value (bool 0))
returned c io env o (some d) s =
    let s' = set_fd o d (record s { opened = d ∷ s.opened }) in
    registered c io o d s' (set_errno env io.errno s')

abbrev pub with_op : OpenArgs → Io → Env → State → Option Flags → Outcome
with_op a io env s none = outcome s none (err (message "Invalid 'op'."))
with_op a io env s (some flags) =
    returned (open_call a.path flags (open_get_prio a.prio)) io env a.object io.fd s

abbrev pub open_file : Io → Env → State → OpenArgs → Outcome
open_file io env s a =
    if io.buf then with_op a io env s (open_get_op a.op) else outcome s none (err no_memory)

unfoldable pub open_process : Io → Env → State → Outcome
open_process io env s = checked (open_args env s) s (open_file io env s)

-- A call that is not made, with errno EBADF and false.
abbrev pub bad_fd : Libc → Io → Env → State → Outcome
bad_fd libc io env s = then_set (set_errno env libc.ebadf s) s none (λ t. granted io.value (bool 0))

abbrev pub whence_arg : Bytes → Result Whence
whence_arg s =
    if bytes_eq s (b'b' ∷ b'e' ∷ b'g' ∷ b'i' ∷ b'n' ∷ [])
    then ok seek_set
    else (if bytes_eq s (b'c' ∷ b'u' ∷ b'r' ∷ b'r' ∷ b'e' ∷ b'n' ∷ b't' ∷ [])
        then ok seek_cur
        else (if bytes_eq s (b'e' ∷ b'n' ∷ b'd' ∷ [])
            then ok seek_end
            else err (message "Invalid argument 'whence'.")))

-- The position that lseek(2) returns is kept in 32 bits before its sign is looked at.
abbrev pub sought : Option ℕ → ℕ
sought none = 0
sought (some p) = if leb (2 ^ 31) (to_int p) then 0 else 1

abbrev pub seek : Io → Env → State → ℕ → ℕ → Whence → Outcome
seek io env s n off whence =
    then_set (set_errno env io.errno s) s (some (lseek_call (to_int n) off whence))
      (λ t. granted io.value (bool (sought io.position)))

-- It is the offset that must not be negative.
abbrev pub seek_from : Libc → Io → Env → State → ℕ → ℕ → Outcome
seek_from libc io env s n off =
    if is_negative off
    then bad_fd libc io env s
    else checked (argument (env "whence") >>= string_arg "'whence' demand string." >>= whence_arg) s
        (seek io env s n off)

abbrev pub seek_file : Libc → Io → Env → State → ℕ × ℕ → Outcome
seek_file libc io env s (o, n) =
    checked (argument (env "offset") >>= int_arg "'offset' demand integer.") s
      (seek_from libc io env s n)

unfoldable pub lseek_process : Libc → Io → Env → State → Outcome
lseek_process libc io env s = checked (this_file env s) s (seek_file libc io env s)

-- A method on the fd of its object, where that is not negative.
abbrev pub on_fd : Libc → Io → Env → State → (ℕ → ℕ → Outcome) → Outcome
on_fd libc io env s f =
    checked (this_file env s) s (λ (o, n). if is_negative n then bad_fd libc io env s else f o n)

abbrev pub content : Option Bytes → Value
content none = bool 0
content (some s) = string s

abbrev pub read_into : Io → Env → State → ℕ → ℕ → Outcome
read_into io env s n k =
    then_set (set_errno env io.errno s) s (some (read_call (to_int n) k))
      (λ t. granted io.value (content io.bytes))

abbrev pub read_some : Io → Env → State → ℕ → ℕ → Outcome
read_some io env s n k = if io.buf then read_into io env s n k else outcome s none (err no_memory)

abbrev pub read_bytes : Io → Env → State → ℕ → ℕ → Outcome
read_bytes io env s n k =
    if is_negative k || k == 0
    then outcome s none (granted io.value nil)
    else read_some io env s n k

abbrev pub read_file : Io → Env → State → ℕ → ℕ → Outcome
read_file io env s o n =
    checked (argument (env "nbytes") >>= int_arg "'nbytes' demand integer.") s
      (read_bytes io env s n)

unfoldable pub read_process : Libc → Io → Env → State → Outcome
read_process libc io env s = on_fd libc io env s (read_file io env s)

abbrev pub counted : Option ℕ → Value
counted none = bool 0
counted (some n) = int n

abbrev pub write_bytes : Io → Env → State → ℕ → Bytes → Outcome
write_bytes io env s n buf =
    then_set (set_errno env io.errno s) s (some (write_call (to_int n) buf))
      (λ t. granted io.value (counted io.count))

abbrev pub write_file : Io → Env → State → ℕ → ℕ → Outcome
write_file io env s o n =
    checked (argument (env "buf") >>= string_arg "'buf' demand string.") s (write_bytes io env s n)

unfoldable pub write_process : Libc → Io → Env → State → Outcome
write_process libc io env s = on_fd libc io env s (write_file io env s)

abbrev pub size_file : Io → Env → State → ℕ → ℕ → Outcome
size_file io env s o n =
    then_set (set_errno env io.errno s) s (some (fstat_call (to_int n)))
      (λ t. granted io.value (counted io.count))

unfoldable pub size_process : Libc → Io → Env → State → Outcome
size_process libc io env s = on_fd libc io env s (size_file io env s)

-- The node of the tree is freed, and with it the descriptor is closed.
abbrev pub closed : ℕ → ℕ → State → State
closed o d s = set_fd o minus_one (close d (record s { file_fd = erase d s.file_fd }))

abbrev pub close_done : Io → Env → State → Outcome
close_done io env t = then_set (set_errno env io.errno t) t none (λ u. granted io.value nil)

abbrev pub close_file : Io → Env → State → ℕ → ℕ → Outcome
close_file io env s o n =
    if count (to_int n) s.file_fd == 0
    then outcome s none (err (message "Invalid file descriptor."))
    else close_done io env (closed o (to_int n) s)

unfoldable pub close_process : Libc → Io → Env → State → Outcome
close_process libc io env s = on_fd libc io env s (close_file io env s)

abbrev pub number_of : Libc → Value → ℕ
number_of libc (int n) = n
number_of libc v = libc.data_i v

-- snprintf with room for 510 bytes and a 0, into 512 bytes; its answer is the length of the whole text.
abbrev pub printed : Bytes → Result Bytes
printed s =
    if leb (length s) 510
    then ok s
    else (if length s == 511 then ok (take 510 s ++ 0 ∷ []) else fault)

abbrev pub errno_member : Option Value → Result Value
errno_member none = err (message "Lack of member 'errno'.")
errno_member (some v) = ok v

unfoldable pub errmsg_process : Libc → Io → Env → State → Result Value
errmsg_process libc io env s = do
  o ← this_object env
  p ← file_of s o
  v ← errno_member (s.objects p).errno
  text ← printed (libc.strerror (to_int (number_of libc v)))
  granted io.value (string text)

-- A method that a script calls.
pub data Act : Type 0 where
  opens : Act
  seeks : Act
  reads : Act
  writes : Act
  sizes : Act
  closes : Act
  asks : Act

unfoldable pub perform : Act → Libc → Io → Env → State → Outcome
perform opens libc io env s = open_process io env s
perform seeks libc io env s = lseek_process libc io env s
perform reads libc io env s = read_process libc io env s
perform writes libc io env s = write_process libc io env s
perform sizes libc io env s = size_process libc io env s
perform closes libc io env s = close_process libc io env s
perform asks libc io env s = outcome s none (errmsg_process libc io env s)
