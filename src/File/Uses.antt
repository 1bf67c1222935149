-- ===== src/File/Uses.antt =====
-- File: the descriptors that the methods hand to the system.
use melang.Base.{
  ℕ, ◌<◌, ◌≡◌, refl, subst, ◌⊎◌, inl, inr, Bool, true, false, ◌||◌, Option, none, some, ◌==◌, count,
  if◌then◌else◌, Bool-cases, arith, ◌∷◌,
}
use melang.Script.{
  Bytes, Value, nil, int, bool, Env, Result, ok, err, fault, no_memory, message, granted, ◌>>=◌,
}
use melang.File.{State, is_negative, minus_one, to_int, set_fd, this_file, set_errno}
use melang.File.Flags.{Flags, open_get_op, open_get_prio}
use melang.File.Calls.{
  Libc, Whence, Call, open_call, lseek_call, read_call, write_call, fstat_call, Io, Outcome,
  outcome, checked, then_set, argument, string_arg, int_arg, OpenArgs, open_args, registered,
  returned, with_op, open_file, open_process, bad_fd, whence_arg, sought, seek, seek_from,
  seek_file, lseek_process, on_fd, content, read_into, read_some, read_bytes, read_file,
  read_process, counted, write_bytes, write_file, write_process, size_file, size_process, closed,
  close_done, close_file, close_process, Act, opens, seeks, reads, writes, sizes, closes, asks,
  perform,
}
use melang.File.Keeps.{this_file-ok}
use melang.File.Run.{Reach, Inv, Reach-Inv}

-- The descriptor of a call is open; lseek may be given the fd of an object without a file.
abbrev pub IsUsable : State → Option Call → Type 0
IsUsable s none = Unit
IsUsable s (some (open_call path flags mode)) = Unit
IsUsable s (some (lseek_call d off w)) =
    ((k : ℕ) × (is_negative k ≡ true) × (d ≡ to_int k)) ⊎ (0 < count d s.opened)
IsUsable s (some (read_call d k)) = 0 < count d s.opened
IsUsable s (some (write_call d bs)) = 0 < count d s.opened
IsUsable s (some (fstat_call d)) = 0 < count d s.opened

module _ (s : State) where
  abbrev Fit : Outcome → Type 0
  Fit o = IsUsable s o.call

  set-Fit :
      (r : Result State) (t : State) (c : Option Call) (answer : State → Result Value)
      → IsUsable s c
      → IsUsable s (then_set r t c answer).call
  set-Fit (ok u) t c answer h = h
  set-Fit (err e) t c answer h = h
  set-Fit fault t c answer h = h

  checked-Fit :
      {A : Type 0} (r : Result A) (f : A → Outcome)
      → ((a : A) → r ≡ ok a → IsUsable s (f a).call)
      → IsUsable s (checked r s f).call
  checked-Fit (ok a) f each = each a refl
  checked-Fit (err e) f each = tt
  checked-Fit fault f each = tt

  if-Fit :
      (b : Bool) (x y : Outcome)
      → (b ≡ true → IsUsable s x.call)
      → (b ≡ false → IsUsable s y.call)
      → IsUsable s (if b then x else y).call
  if-Fit true x y h k = h refl
  if-Fit false x y h k = k refl

  registered-Fit :
      (path : Bytes) (flags : Flags) (mode : ℕ) (io : Io) (o d : ℕ) (t : State) (r : Result State)
      → IsUsable s (registered (open_call path flags mode) io o d t r).call
  registered-Fit path flags mode io o d t (ok u) = tt
  registered-Fit path flags mode io o d t (err e) = tt
  registered-Fit path flags mode io o d t fault = tt

  module _ (libc : Libc) (io : Io) (env : Env) (inv : Inv true s) where
    -- The fd with which a method starts.
    held :
        (o n : ℕ)
        → this_file env s ≡ ok (o, n)
        → is_negative n ≡ false
        → 0 < count (to_int n) s.opened
    held o n this pos =
        let there = (inv.1 refl).0 o n (this_file-ok env s o n this).1 pos in
        let ((same, once, small, none_stray), owns) = inv in
        let int : n ≡ to_int n = omega (arith, small n there) in
        subst (λ d. 0 < count d s.opened) int there

    on_fd-Fit :
        (f : ℕ → ℕ → Outcome)
        → ((o n : ℕ) → 0 < count (to_int n) s.opened → IsUsable s (f o n).call)
        → IsUsable s (on_fd libc io env s f).call
    on_fd-Fit f each =
        checked-Fit (this_file env s)
          (λ (o, n). if is_negative n then bad_fd libc io env s else f o n)
          (λ (o, n) this.
            if-Fit (is_negative n) (bad_fd libc io env s) (f o n)
              (λ y. set-Fit (set_errno env libc.ebadf s) s none (λ t. granted io.value (bool 0)) tt)
              (λ y. each o n (held o n this y)))

    returned-Fit :
        (path : Bytes) (flags : Flags) (mode : ℕ) (o : ℕ) (fd : Option ℕ)
        → IsUsable s (returned (open_call path flags mode) io env o fd s).call
    returned-Fit path flags mode o none =
        let t : State = set_fd o minus_one s in
        set-Fit (set_errno env io.errno t) t (some (open_call path flags mode))
          (λ u. granted io.value (bool 0)) tt
    returned-Fit path flags mode o (some d) =
        let t : State = set_fd o d (record s { opened = d ∷ s.opened }) in
        registered-Fit path flags mode io o d t (set_errno env io.errno t)

    with_op-Fit : (f : Option Flags) (a : OpenArgs) → IsUsable s (with_op a io env s f).call
    with_op-Fit none a = tt
    with_op-Fit (some flags) a = returned-Fit a.path flags (open_get_prio a.prio) a.object io.fd

    seek-Fit :
        (n off : ℕ) (w : Whence)
        → IsUsable s (some (lseek_call (to_int n) off w))
        → IsUsable s (seek io env s n off w).call
    seek-Fit n off w h =
        set-Fit (set_errno env io.errno s) s (some (lseek_call (to_int n) off w))
          (λ t. granted io.value (bool (sought io.position))) h

    seek_fd :
        (o n off : ℕ) (w : Whence)
        → this_file env s ≡ ok (o, n)
        → IsUsable s (some (lseek_call (to_int n) off w))
    seek_fd o n off w this = elim (Bool-cases (is_negative n)) [
      | inl y ↦ inl (n, y, refl)
      | inr y ↦ inr (held o n this y)
    ]

    perform-Fit : (m : Act) → IsUsable s (perform m libc io env s).call
    unfolding perform open_process lseek_process read_process write_process size_process
        close_process
    perform-Fit opens = checked-Fit (open_args env s) (open_file io env s) (λ a this.
        if-Fit io.buf (with_op a io env s (open_get_op a.op)) (outcome s none (err no_memory))
          (λ y. with_op-Fit (open_get_op a.op) a) (λ y. tt))
    perform-Fit seeks = checked-Fit (this_file env s) (seek_file libc io env s) (λ (o, n) this.
        checked-Fit (argument (env "offset") >>= int_arg "'offset' demand integer.")
          (seek_from libc io env s n)
          (λ off offset.
            let whence : Result Whence =
              (argument (env "whence") >>= string_arg "'whence' demand string." >>= whence_arg) in
            if-Fit (is_negative off) (bad_fd libc io env s) (checked whence s (seek io env s n off))
              (λ y. set-Fit (set_errno env libc.ebadf s) s none (λ t. granted io.value (bool 0)) tt)
              (λ y.
                checked-Fit whence (seek io env s n off)
                  (λ w arg. seek-Fit n off w (seek_fd o n off w this)))))
    perform-Fit reads = on_fd-Fit (read_file io env s) (λ o n there.
        checked-Fit (argument (env "nbytes") >>= int_arg "'nbytes' demand integer.")
          (read_bytes io env s n)
          (λ k nbytes.
            if-Fit (is_negative k || k == 0) (outcome s none (granted io.value nil))
              (read_some io env s n k) (λ y. tt)
              (λ y.
                if-Fit io.buf (read_into io env s n k) (outcome s none (err no_memory))
                  (λ y.
                    set-Fit (set_errno env io.errno s) s (some (read_call (to_int n) k))
                      (λ t. granted io.value (content io.bytes)) there)
                  (λ y. tt))))
    perform-Fit writes = on_fd-Fit (write_file io env s) (λ o n there.
        checked-Fit (argument (env "buf") >>= string_arg "'buf' demand string.")
          (write_bytes io env s n)
          (λ buf arg.
            set-Fit (set_errno env io.errno s) s (some (write_call (to_int n) buf))
              (λ t. granted io.value (counted io.count)) there))
    perform-Fit sizes = on_fd-Fit (size_file io env s) (λ o n there.
        set-Fit (set_errno env io.errno s) s (some (fstat_call (to_int n)))
          (λ t. granted io.value (counted io.count)) there)
    perform-Fit closes = on_fd-Fit (close_file io env s) (λ o n there.
        if-Fit (count (to_int n) s.file_fd == 0)
          (outcome s none (err (message "Invalid file descriptor.")))
          (close_done io env (closed o (to_int n) s)) (λ y. tt)
          (λ y.
            set-Fit (set_errno env io.errno (closed o (to_int n) s)) (closed o (to_int n) s) none
              (λ u. granted io.value nil) tt))
    perform-Fit asks = tt

-- After any sequence of method calls, new objects and assignments of the script to errno, in which each
-- node of the tree is granted and open(2) returns a descriptor that was not open: whatever method is
-- called next, read, write and fstat get a descriptor that is open, and lseek such a one or a negative
-- fd; and no two objects have the same fd that is not negative.
pub Reach-uses :
    (s : State) (m : Act) (libc : Libc) (io : Io) (env : Env)
    → Reach true s
    → IsUsable s (perform m libc io env s).call
      × ((o p n : ℕ)
          → (s.objects o).fd ≡ some (int n)
          → (s.objects p).fd ≡ some (int n)
          → is_negative n ≡ false
          → o ≡ p)
Reach-uses s m libc io env run =
    let inv = Reach-Inv true run in (perform-Fit s libc io env inv m, (inv.1 refl).1)
