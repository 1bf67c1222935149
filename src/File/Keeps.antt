-- ===== src/File/Keeps.antt =====
-- File: what every method keeps, once open(2) and the close of a node keep it.
use Prim.Native.String.{String}
use melang.Base.{
  ℕ, ◌≡◌, refl, sym, ap, subst, ◌∙◌, Bool, true, false, ◌||◌, Option, none, some, ◌==◌, count,
  if◌then◌else◌,
}
use melang.Script.{
  Value, nil, int, bool, real, string, obj, func, array, Error, Env, Result, ok, err, fault,
  no_memory, message, granted, ◌>>=◌,
}
use melang.File.{
  State, is_negative, to_int, set_object, this_object, file_of, int_member, fd_of, this_file,
  set_errno,
}
use melang.File.Flags.{Flags, open_get_op, open_get_prio}
use melang.File.Calls.{
  Libc, Whence, Call, open_call, lseek_call, read_call, write_call, fstat_call, Io, Outcome,
  outcome, checked, then_set, argument, string_arg, int_arg, prio_arg, OpenArgs, open_args,
  returned, with_op, open_file, open_process, bad_fd, whence_arg, sought, seek, seek_from,
  seek_file, lseek_process, on_fd, content, read_into, read_some, read_bytes, read_file,
  read_process, counted, write_bytes, write_file, write_process, size_file, size_process, closed,
  close_done, close_file, close_process, Act, opens, seeks, reads, writes, sizes, closes, asks,
  perform,
}

ok_inj : (a b : ℕ) → ok a ≡ ok b → a ≡ b
ok_inj a b h = cc (h)

pub bind-ok {ℓ κ} :
    {A : Type ℓ} {B : Type κ} (r : Result A) (f : A → Result B) (b : B)
    → (r >>= f) ≡ ok b
    → (a : A) × (r ≡ ok a) × (f a ≡ ok b)
bind-ok (ok a) f b h = (a, refl, h)
bind-ok (err e) f b h = absurd (cc (h))
bind-ok fault f b h = absurd (cc (h))

picked : (b : Bool) (e : Error) (o p : ℕ) → (if b then ok o else err e) ≡ ok p → p ≡ o
picked true e o p h = sym (ok_inj o p h)
picked false e o p h = absurd (cc (h))

int_member-ok :
    (lack invalid : String) (v : Option Value) (n : ℕ)
    → int_member lack invalid v ≡ ok n
    → v ≡ some (int n)
int_member-ok lack invalid (some (int m)) n h = ap (λ k. some (int k)) (ok_inj m n h)
int_member-ok lack invalid none n h = absurd (cc (h))
int_member-ok lack invalid (some nil) n h = absurd (cc (h))
int_member-ok lack invalid (some (bool b)) n h = absurd (cc (h))
int_member-ok lack invalid (some (real b)) n h = absurd (cc (h))
int_member-ok lack invalid (some (string b)) n h = absurd (cc (h))
int_member-ok lack invalid (some (obj b)) n h = absurd (cc (h))
int_member-ok lack invalid (some (func b)) n h = absurd (cc (h))
int_member-ok lack invalid (some (array b)) n h = absurd (cc (h))

-- Of a method that starts: the object that it is called on, and its fd.
pub this_file-ok :
    (env : Env) (s : State) (o n : ℕ)
    → this_file env s ≡ ok (o, n)
    → (this_object env ≡ ok o) × ((s.objects o).fd ≡ some (int n))
this_file-ok env s o n h =
    let (q, this, h1) = bind-ok (this_object env) _ (o, n) h in
    let (p, file, h2) = bind-ok (file_of s q) (fd_of s) (o, n) h1 in
    let (k, fd, h3) =
      bind-ok (int_member "Lack of member 'fd'." "Invalid type of 'fd'." (s.objects p).fd) _ (o, n)
        h2 in
    let p_o : p ≡ o = ap (λ r. (elim r [ ok x ↦ x.0 | err e ↦ p | fault ↦ p ])) h3 in
    let k_n : k ≡ n = ap (λ r. (elim r [ ok x ↦ x.1 | err e ↦ k | fault ↦ k ])) h3 in
    let same : p ≡ q = picked (s.objects q).is_file _ q p file in
    (
      this ∙ ap ok (sym same ∙ p_o),
      subst (λ x. (s.objects x).fd ≡ some (int n)) p_o
          (int_member-ok _ _ (s.objects p).fd k fd ∙ ap (λ x. some (int x)) k_n),
    )

open_args-ok :
    (env : Env) (s : State) (a : OpenArgs) → open_args env s ≡ ok a → this_object env ≡ ok a.object
open_args-ok env s a h =
    let ((o, n), this, h1) = bind-ok (this_file env s) _ a h in
    let (path, p1, h2) =
      bind-ok (argument (env "path") >>= string_arg "'path' demand string.") _ a h1 in
    let (op, p2, h3) = bind-ok (argument (env "op") >>= string_arg "'op' demand string.") _ a h2 in
    let (prio, p3, h4) = bind-ok (argument (env "prio") >>= prio_arg) _ a h3 in
    (this_file-ok env s o n this).0
    ∙ ap ok (ap (λ r. (elim r [ ok x ↦ x.object | err e ↦ o | fault ↦ o ])) h4)

-- errno is set on an object and nothing else is changed, or the call fails.
module _ (P : State → Type 0) where
  abbrev pub AllKept : Result State → Type 0
  AllKept (ok t) = P t
  AllKept (err e) = Unit
  AllKept fault = Unit

  bind-AllKept :
      {A : Type 0} (r : Result A) (f : A → Result State)
      → ((a : A) → AllKept (f a))
      → AllKept (r >>= f)
  bind-AllKept (ok a) f h = h a
  bind-AllKept (err e) f h = tt
  bind-AllKept fault f h = tt

  abbrev pub IsStable : Type 0
  IsStable =
      (s : State) (o e : ℕ)
      → P s
      → P (set_object o (record (s.objects o) { errno = some (int e) }) s)

  pub set_errno-AllKept :
      (env : Env) (e : ℕ) (s : State) → IsStable → P s → AllKept (set_errno env e s)
  unfolding set_errno
  set_errno-AllKept env e s stable h =
      bind-AllKept (this_object env) _
        (λ o. bind-AllKept (int_member _ _ (s.objects o).errno) _ (λ n. stable s o e h))

  pub then_set-P :
      (r : Result State) (s : State) (c : Option Call) (answer : State → Result Value)
      → AllKept r
      → P s
      → P (then_set r s c answer).state
  then_set-P (ok t) s c answer kept h = kept
  then_set-P (err e) s c answer kept h = h
  then_set-P fault s c answer kept h = h

  checked-P :
      {A : Type 0} (r : Result A) (s : State) (f : A → Outcome)
      → P s
      → ((a : A) → r ≡ ok a → P (f a).state)
      → P (checked r s f).state
  checked-P (ok a) s f h each = each a refl
  checked-P (err e) s f h each = h
  checked-P fault s f h each = h

  if-P :
      (b : Bool) (x y : Outcome)
      → (b ≡ true → P x.state)
      → (b ≡ false → P y.state)
      → P (if b then x else y).state
  if-P true x y h k = h refl
  if-P false x y h k = k refl

  module _ (libc : Libc) (io : Io) (env : Env) (s : State) (stable : IsStable) (h : P s) where
    set-P :
        (e : ℕ) (c : Option Call) (answer : State → Result Value)
        → P (then_set (set_errno env e s) s c answer).state
    set-P e c answer =
        then_set-P (set_errno env e s) s c answer (set_errno-AllKept env e s stable h) h

    on_fd-P :
        (f : ℕ → ℕ → Outcome)
        → ((o n : ℕ) → this_file env s ≡ ok (o, n) → is_negative n ≡ false → P (f o n).state)
        → P (on_fd libc io env s f).state
    on_fd-P f each = checked-P (this_file env s) s _ h (λ (o, n) this.
        if-P (is_negative n) (bad_fd libc io env s) (f o n) (λ y. set-P libc.ebadf none _)
          (each o n this))

    with_op-P :
        (f : Option Flags) (a : OpenArgs)
        → ((c : Call) → P (returned c io env a.object io.fd s).state)
        → P (with_op a io env s f).state
    with_op-P none a opening = h
    with_op-P (some flags) a opening = opening (open_call a.path flags (open_get_prio a.prio))

    seek_from-P : (n off : ℕ) → P (seek_from libc io env s n off).state
    seek_from-P n off =
        let whence : Result Whence =
          (argument (env "whence") >>= string_arg "'whence' demand string." >>= whence_arg) in
        if-P (is_negative off) (bad_fd libc io env s) (checked whence s (seek io env s n off))
          (λ y. set-P libc.ebadf none (λ t. granted io.value (bool 0)))
          (λ y. checked-P whence s (seek io env s n off) h (λ w this.
            set-P io.errno (some (lseek_call (to_int n) off w))
              (λ t. granted io.value (bool (sought io.position)))))

    read_bytes-P : (n k : ℕ) → P (read_bytes io env s n k).state
    read_bytes-P n k =
        if-P (is_negative k || k == 0) (outcome s none (granted io.value nil))
          (read_some io env s n k) (λ y. h)
          (λ y.
            if-P io.buf (read_into io env s n k) (outcome s none (err no_memory))
              (λ y.
                set-P io.errno (some (read_call (to_int n) k))
                  (λ t. granted io.value (content io.bytes)))
              (λ y. h))

    -- What open(2) and the close of a node keep, every method keeps.
    pub perform-P :
        (m : Act)
        → ((a : OpenArgs) (c : Call)
            → this_object env ≡ ok a.object
            → P (returned c io env a.object io.fd s).state)
        → ((o n : ℕ)
            → (s.objects o).fd ≡ some (int n)
            → is_negative n ≡ false
            → (count (to_int n) s.file_fd == 0) ≡ false
            → P (closed o (to_int n) s))
        → P (perform m libc io env s).state
    unfolding perform open_process lseek_process read_process write_process size_process
        close_process
    perform-P opens opening closing =
        checked-P (open_args env s) s (open_file io env s) h (λ a this.
          if-P io.buf (with_op a io env s (open_get_op a.op)) (outcome s none (err no_memory))
            (λ y. with_op-P (open_get_op a.op) a (λ c. opening a c (open_args-ok env s a this)))
            (λ n. h))
    perform-P seeks opening closing =
        checked-P (this_file env s) s (seek_file libc io env s) h (λ (o, n) this.
          checked-P (argument (env "offset") >>= int_arg "'offset' demand integer.") s
            (seek_from libc io env s n) h (λ off offset. seek_from-P n off))
    perform-P reads opening closing = on_fd-P (read_file io env s) (λ o n this some_fd.
        checked-P (argument (env "nbytes") >>= int_arg "'nbytes' demand integer.") s
          (read_bytes io env s n) h (λ k nbytes. read_bytes-P n k))
    perform-P writes opening closing = on_fd-P (write_file io env s) (λ o n this some_fd.
        checked-P (argument (env "buf") >>= string_arg "'buf' demand string.") s
          (write_bytes io env s n) h
          (λ buf arg.
            set-P io.errno (some (write_call (to_int n) buf))
              (λ t. granted io.value (counted io.count))))
    perform-P sizes opening closing = on_fd-P (size_file io env s) (λ o n this some_fd.
        set-P io.errno (some (fstat_call (to_int n))) (λ t. granted io.value (counted io.count)))
    perform-P closes opening closing = on_fd-P (close_file io env s) (λ o n this some_fd.
        if-P (count (to_int n) s.file_fd == 0)
          (outcome s none (err (message "Invalid file descriptor.")))
          (close_done io env (closed o (to_int n) s)) (λ y. h)
          (λ y.
            let kept = closing o n (this_file-ok env s o n this).1 some_fd y in
            then_set-P (set_errno env io.errno (closed o (to_int n) s)) (closed o (to_int n) s) none
              (λ u. granted io.value nil)
              (set_errno-AllKept env io.errno (closed o (to_int n) s) stable kept) kept))
    perform-P asks opening closing = h
