-- ===== src/Digests.antt =====
-- lib_src/md5, sha and prime: the digest of a string or of a file, and the prime behind a number. The
-- digests and the primes themselves are Melon's and come from outside.
pub mod Streams
mod Tests
use melang.Base.{
  ℕ, ◌%◌, ◌^◌, Bool, true, false, List, [], ◌∷◌, Option, none, some, if◌then◌else◌, bytes_eq,
}
use melang.Script.{
  Bytes, Value, int, bool, string, obj, Env, Result, ok, err, fault, invalid_argument, no_member_fd,
  invalid_type_fd, ◌>>=◌, asserted, granted,
}

-- mln_md5_init, calc with the flag of the last part, and tostring; and those of mln_sha1 and mln_sha256.
pub record Hash (S : Type 0) : Type 0 where
  pub start : S
  pub calc : S → Bytes → Bool → S
  pub text : S → Bytes

-- What the calls of read return, one after the other: bytes, 0 at the end, or -1.
pub data Reads : Type 0 where
  more : Bytes → Reads → Reads
  at_end : Reads
  failed : Reads

-- The objects: the name of the set that each is of (`none` where in_set or its name is NULL), its
-- member fd, and what is read from a descriptor.
pub record Files : Type 0 where
  pub in_set : ℕ → Option Bytes
  pub fd : ℕ → Option Value
  pub read : ℕ → Reads

abbrev pub file_name : Bytes
file_name = b'F' ∷ b'i' ∷ b'l' ∷ b'e' ∷ []

-- The name of the set is compared without a look at the pointers to it.
abbrev pub is_file : Option Bytes → Result Bool
is_file none = fault
is_file (some name) = ok (bytes_eq name file_name)

-- The descriptor is a C int.
abbrev pub fd_of : Option Value → Result ℕ
fd_of none = err no_member_fd
fd_of (some (int fd)) = ok (fd % 2 ^ 32)
fd_of (some v) = err invalid_type_fd

module _ {S : Type 0} (h : Hash S) where
  -- The loop over a file, `none` after a failed read.
  unfoldable pub read_loop : S → Reads → Option S
  read_loop s (more bs r) = read_loop (h.calc s bs false) r
  read_loop s at_end = some s
  read_loop s failed = none

  abbrev pub digest_text : Bool → S → Result Value
  digest_text val s = granted val (string (h.text s))

  abbrev pub finished : Bool → Option S → Result Value
  finished val none = granted val (bool 0)
  finished val (some s) = digest_text val (h.calc s [] true)

  abbrev pub digest_file : Files → Bool → ℕ → Result Value
  digest_file files val fd = finished val (read_loop h.start (files.read fd))

  abbrev pub digest_value : Files → Bool → Value → Result Value
  digest_value files val (string s) = digest_text val (h.calc h.start s true)
  digest_value files val (obj o) = is_file (files.in_set o) >>= λ is.
      if is then fd_of (files.fd o) >>= digest_file files val else err (invalid_argument 0)
  digest_value files val v = err (invalid_argument 0)

  unfoldable pub digest : Files → Bool → Env → Result Value
  digest files val env = asserted (env "data") >>= digest_value files val

-- mln_md5_t, mln_sha1_t and mln_sha256_t with their operations.
pub record Digesters : Type 1 where
  pub Md5 : Type 0
  pub Sha1 : Type 0
  pub Sha256 : Type 0
  pub md5 : Hash Md5
  pub sha1 : Hash Sha1
  pub sha256 : Hash Sha256

unfoldable pub md5_process : Digesters → Files → Bool → Env → Result Value
md5_process d = digest d.md5

unfoldable pub sha1_process : Digesters → Files → Bool → Env → Result Value
sha1_process d = digest d.sha1

unfoldable pub sha256_process : Digesters → Files → Bool → Env → Result Value
sha256_process d = digest d.sha256

abbrev pub base_of : Value → Result ℕ
base_of (int i) = ok i
base_of v = err (invalid_argument 0)

-- mln_prime_generate takes and returns 32 bits.
unfoldable pub prime_process : (ℕ → ℕ) → Bool → Env → Result Value
prime_process prime_generate val env = do
  v ← asserted (env "base")
  i ← base_of v
  granted val (int (prime_generate (i % 2 ^ 32) % 2 ^ 32))
