-- ===== src/File/Stale.antt =====
-- File: open whose node of the tree is refused, and then read.
use melang.Base.{
  ℕ, ◌^◌, ◌<◌, ◌≡◌, refl, ap, ◌∙◌, ◌||◌, true, false, List, [], ◌∷◌, Option, none, some, ◌==◌,
  count, ==_refl, if◌then◌else◌, arith,
}
use melang.Script.{
  Bytes, Value, nil, int, string, obj, Env, Result, ok, err, no_memory, fault, granted, args, ◌>>=◌,
}
use melang.File.{State, is_negative, to_int, set_object, set_fd, int_member, set_errno}
use melang.File.Flags.{Flags, open_get_op, open_get_prio}
use melang.File.Calls.{
  Libc, Call, open_call, read_call, Io, outcome, checked, then_set, OpenArgs, open_args, with_node,
  with_answer, registered, returned, with_op, open_file, open_process, read_process, content,
}
use melang.File.Change.{close_new}

abbrev pub open_env : ℕ → Bytes → Bytes → Env
open_env o path op =
    args (("this", obj o) ∷ ("path", string path) ∷ ("op", string op) ∷ ("prio", nil) ∷ [])

abbrev pub read_env : ℕ → ℕ → Env
read_env o k = args (("this", obj o) ∷ ("nbytes", int k) ∷ [])

-- A File object with the members that its set gives it.
abbrev pub IsFile : State → ℕ → Type 0
IsFile s o =
    ((s.objects o).is_file ≡ true)
    × ((n : ℕ) × (s.objects o).fd ≡ some (int n))
    × ((e : ℕ) × (s.objects o).errno ≡ some (int e))

-- What open leaves: the object has the descriptor, which is closed.
abbrev left : Io → ℕ → ℕ → State → State
left io o d s =
    let t : State = set_fd o d s in
    set_object o (record (t.objects o) { errno = some (int io.errno) }) t

module _ (io : Io) (s : State) (o d : ℕ) (path op : Bytes) (flags : Flags) where
  args-known :
      IsFile s o
      → open_args (open_env o path op) s
        ≡ ok (record { object = o; path = path; op = op; prio = 0x1a4 })
  args-known (file, (n, fd), member) = rw (file, fd) refl

  set_errno-known :
      (e : ℕ) (xs : List ℕ)
      → (s.objects o).errno ≡ some (int e)
      → set_errno (open_env o path op) io.errno (set_fd o d (record s { opened = xs }))
        ≡ ok (record (left io o d s) { opened = xs })
  unfolding set_errno
  set_errno-known e xs errno =
      let t : State = set_fd o d (record s { opened = xs }) in
      let member : (t.objects o).errno ≡ some (int e) = rw (==_refl o) errno in
      ap
        (λ v. int_member "Lack of member 'errno'." "Invalid type of 'errno'." v >>= λ n.
          ok (record (left io o d s) { opened = xs }))
        member

  open_process-left :
      IsFile s o
      → open_get_op op ≡ some flags
      → io.buf ≡ true
      → io.fd ≡ some d
      → io.node ≡ false
      → open_process io (open_env o path op) s
        ≡ outcome
            (left io o d s)
            (some (open_call path flags (open_get_prio 0x1a4)))
            (err no_memory)
  unfolding open_process
  open_process-left (file, fd, (e, errno)) known buf got refused =
      let env : Env = open_env o path op in
      let a : OpenArgs = record { object = o; path = path; op = op; prio = 0x1a4 } in
      let c : Call = open_call path flags (open_get_prio 0x1a4) in
      let t : State = record (left io o d s) { opened = d ∷ s.opened } in
      ap (λ r. checked r s (open_file io env s)) (args-known (file, fd, (e, errno)))
      ∙ ap (λ b. if b then with_op a io env s (open_get_op op) else outcome s none (err no_memory))
          buf
      ∙ ap (with_op a io env s) known
      ∙ ap (λ v. returned c io env o v s) got
      ∙ ap (registered c io o d (set_fd o d (record s { opened = d ∷ s.opened })))
          (set_errno-known e (d ∷ s.opened) errno)
      ∙ ap (λ b. with_answer c (with_node b io.value o d t)) refused
      ∙ ap (λ u. outcome u (some c) (err no_memory)) (close_new d s.opened t refl)

then_set-call :
    (r : Result State) (s : State) (c : Option Call) (answer : State → Result Value)
    → (then_set r s c answer).call ≡ c
then_set-call (ok t) s c answer = refl
then_set-call (err e) s c answer = refl
then_set-call fault s c answer = refl

module _ (libc : Libc) (rio : Io) (t : State) (o d k : ℕ) where
  -- A read with an fd that is an int and not negative.
  read_process-call :
      (t.objects o).is_file ≡ true
      → (t.objects o).fd ≡ some (int d)
      → rio.buf ≡ true
      → d < 2 ^ 31
      → is_negative k || k == 0 ≡ false
      → (read_process libc rio (read_env o k) t).call ≡ some (read_call d k)
  unfolding read_process
  read_process-call file fd rbuf low some_k =
      let pos : is_negative d ≡ false = ground (arith, low) in
      let int : to_int d ≡ d = omega (arith, low) in
      rw (file, fd, pos, some_k, rbuf)
        (then_set-call (set_errno (read_env o k) rio.errno t) t (some (read_call (to_int d) k))
            (λ u. granted rio.value (content rio.bytes))
          ∙ ap (λ x. some (read_call x k)) int)

-- Where open(2) gives a descriptor that was not open and the node of the tree is refused: open fails,
-- the descriptor is closed and stays the fd of the object, so that a read of some bytes hands it to
-- the system though it is not open, for all that open has left.
pub open_process-stale :
    (libc : Libc) (io rio : Io) (s : State) (o d k : ℕ) (path op : Bytes) (flags : Flags)
    → IsFile s o
    → open_get_op op ≡ some flags
    → io.buf ≡ true
    → io.fd ≡ some d
    → io.node ≡ false
    → rio.buf ≡ true
    → d < 2 ^ 31
    → count d s.opened ≡ 0
    → is_negative k || k == 0 ≡ false
    → ((open_process io (open_env o path op) s).answer ≡ err no_memory)
      × ((read_process libc rio (read_env o k) (open_process io (open_env o path op) s).state).call
          ≡ some (read_call d k))
      × (count d (open_process io (open_env o path op) s).state.opened ≡ 0)
open_process-stale libc io rio s o d k path op flags file known buf got refused rbuf low fresh
      some_k =
    let t : State = left io o d s in
    let c : Call = open_call path flags (open_get_prio 0x1a4) in
    let done : open_process io (open_env o path op) s ≡ outcome t (some c) (err no_memory) =
      open_process-left io s o d path op flags file known buf got refused in
    let f : (t.objects o).is_file ≡ true = rw (==_refl o) file.0 in
    let g : (t.objects o).fd ≡ some (int d) = rw (==_refl o) refl in
    (
      ap (λ x. x.answer) done,
      ap (λ x. (read_process libc rio (read_env o k) x.state).call) done
          ∙ read_process-call libc rio t o d k f g rbuf low some_k,
      ap (λ x. count d x.state.opened) done ∙ fresh,
    )
