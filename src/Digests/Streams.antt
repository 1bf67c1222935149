-- ===== src/Digests/Streams.antt =====
-- The digest of a file is the digest of the string with its bytes.
use melang.Base.{
  bytes_eq, ℕ, ◌%◌, ◌^◌, ◌≡◌, refl, ◌∙◌, Bool, true, false, List, [], ◌∷◌, ◌++◌, some,
}
use melang.Script.{Bytes, int, string, obj, given}
use melang.Digests.{
  file_name, Hash, Reads, more, at_end, Files, read_loop, digest, Digesters, md5_process,
  sha1_process, sha256_process,
}

-- A part and then the last part give the state that they give together.
abbrev pub IsStreaming : (S : Type 0) → Hash S → Type 0
IsStreaming S h =
    (s : S) (bs cs : Bytes) → h.calc (h.calc s bs false) cs true ≡ h.calc s (bs ++ cs) true

-- Reads that give these parts, then the end; and the parts in a row.
unfoldable pub reads_of : List Bytes → Reads
reads_of [] = at_end
reads_of (bs ∷ parts) = more bs (reads_of parts)

unfoldable pub joined : List Bytes → Bytes
joined [] = []
joined (bs ∷ parts) = bs ++ joined parts

read_loop-joined :
    (S : Type 0) (h : Hash S) (stream : IsStreaming S h) (parts : List Bytes) (s : S)
    → (t : S) × (read_loop h s (reads_of parts) ≡ some t)
      × (h.calc t [] true ≡ h.calc s (joined parts) true)
unfolding read_loop reads_of joined
read_loop-joined S h stream [] s = (s, refl, refl)
read_loop-joined S h stream (bs ∷ parts) s =
    let (t, e, f) = read_loop-joined S h stream parts (h.calc s bs false) in
    (t, e, f ∙ stream s bs (joined parts))

-- The object `o` is a file, of which reads give these parts.
abbrev pub Holds : Files → ℕ → List Bytes → Type 0
Holds files o parts =
    (fd : ℕ) × (files.in_set o ≡ some file_name)
    × (files.fd o ≡ some (int fd))
    × (files.read (fd % 2 ^ 32) ≡ reads_of parts)

digest-joined :
    (S : Type 0) (h : Hash S) (stream : IsStreaming S h) (files : Files) (val : Bool) (o : ℕ)
    (parts : List Bytes)
    → Holds files o parts
    → digest h files val (given (obj o)) ≡ digest h files val (given (string (joined parts)))
unfolding digest bytes_eq
digest-joined S h stream files val o parts (fd, is, member, reads) =
    let (t, e, f) = read_loop-joined S h stream parts h.start in rw (is, member, reads, e, f) refl

-- Where Melon's digests give the same state for two parts as for both together, and reads of a file give
-- some parts and then its end: md5, sha1 and sha256 answer for the file as they do for the string of the
-- parts in a row, whether or not the memory for the answer is granted.
pub digests-joined :
    (d : Digesters) (files : Files) (val : Bool) (o : ℕ) (parts : List Bytes)
    → IsStreaming d.Md5 d.md5
    → IsStreaming d.Sha1 d.sha1
    → IsStreaming d.Sha256 d.sha256
    → Holds files o parts
    → (md5_process d files val (given (obj o))
        ≡ md5_process d files val (given (string (joined parts))))
      × (sha1_process d files val (given (obj o))
          ≡ sha1_process d files val (given (string (joined parts))))
      × (sha256_process d files val (given (obj o))
          ≡ sha256_process d files val (given (string (joined parts))))
unfolding md5_process sha1_process sha256_process
digests-joined d files val o parts a b c holds = (
  digest-joined d.Md5 d.md5 a files val o parts holds,
  digest-joined d.Sha1 d.sha1 b files val o parts holds,
  digest-joined d.Sha256 d.sha256 c files val o parts holds,
)
