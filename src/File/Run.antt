-- ===== src/File/Run.antt =====
-- File: every sequence of method calls, new objects and assignments of the script.
use melang.Base.{
  ℕ, ◌^◌, ◌<◌, ◌≤◌, ◌≡◌, refl, sym, ap, subst, ◌∙◌, Bool, true, false, List, [], ◌∷◌, Option, none,
  some, ◌==◌, count, erase, count-erase, arith,
}
use melang.Script.{Value, int, Env, Result, ok, err, fault, granted}
use melang.File.{
  Object, State, to_int, is_negative, minus_one, set_object, set_fd, this_object, set_errno,
  close_all, ctx_free,
}
use melang.File.Calls.{Libc, Call, Io, with_node, registered, returned, closed, Act, perform}
use melang.File.Keeps.{AllKept, IsStable, set_errno-AllKept, then_set-P, perform-P}
use melang.File.Owns.{Owns, fds, int_inj, same_fd, no_fd, new_fd, closed_fd}
use melang.File.Change.{
  other_objects, this_fd, close_open, erase_head, close_new, NotFault, set_errno-NotFault,
  count_new, below_new, fds_kept,
}

-- A File object as the script gets it.
abbrev pub new_file : Object
new_file = record {
  is_file = true;
  fd = some (int minus_one);
  errno = some (int 0);
  locked = false;
}

-- What open(2) documents: the descriptor it returns is an int that is not negative, and was not open.
abbrev pub IsSystem : Io → State → Type 0
IsSystem io s = (d : ℕ) → io.fd ≡ some d → (d < 2 ^ 31) × (count d s.opened ≡ 0)

-- In a run that is `tidy` each node is granted, and the script leaves fd alone.
pub data Step (tidy : Bool) (s : State) : State → Type 0 where
  method :
      (m : Act) (libc : Libc) (io : Io) (env : Env)
      → IsSystem io s
      → (tidy ≡ true → io.node ≡ true)
      → Step tidy s (perform m libc io env s).state
  create : (o : ℕ) → Step tidy s (set_object o new_file s)
  assign_errno :
      (o : ℕ) (v : Value) → Step tidy s (set_object o (record (s.objects o) { errno = some v }) s)
  assign_fd :
      (o : ℕ) (v : Value)
      → tidy ≡ false
      → (s.objects o).locked ≡ false
      → Step tidy s (set_object o (record (s.objects o) { fd = some v }) s)

abbrev pub start : State
start = record { objects = λ o. new_file; file_fd = []; opened = []; strays = 0 }

pub data Reach (tidy : Bool) : State → Type 0 where
  here : Reach tidy start
  next : {s t : State} → Reach tidy s → Step tidy s t → Reach tidy t

-- The tree holds just the descriptors that are open, each once, and none but those were closed.
abbrev pub Owned : State → Type 0
Owned s =
    (s.file_fd ≡ s.opened)
    × ((d : ℕ) → count d s.opened ≤ 1)
    × ((d : ℕ) → 0 < count d s.opened → d < 2 ^ 31)
    × (s.strays ≡ 0)

abbrev pub Inv : Bool → State → Type 0
Inv tidy s = Owned s × (tidy ≡ true → Owns (fds s) s.opened)

module _ (tidy : Bool) where
  Inv-set_object :
      (s : State) (o : ℕ) (f : Object) → Inv tidy s → f.fd ≡ fds s o → Inv tidy (set_object o f s)
  Inv-set_object s o f (owned, owns) same = (
    owned,
    λ t.
        same_fd (fds s) (fds (set_object o f s)) o s.opened (owns t) (other_objects o f s)
          (this_fd o f s ∙ same),
  )

  Inv-gone :
      (s : State) (o : ℕ) (f : Object)
      → Inv tidy s
      → f.fd ≡ some (int minus_one)
      → Inv tidy (set_object o f s)
  Inv-gone s o f (owned, owns) gone = (
    owned,
    λ t.
        no_fd (fds s) (fds (set_object o f s)) o s.opened s.opened (owns t) (other_objects o f s)
          (this_fd o f s ∙ gone) (λ p n other. (owns t).0 p n),
  )

  Inv-IsStable : IsStable (Inv tidy)
  Inv-IsStable s o e inv =
      Inv-set_object s o (record (s.objects o) { errno = some (int e) }) inv refl

  -- What open leaves between the system's call and the node of the tree.
  abbrev Half : ℕ → ℕ → State → State → Type 0
  Half o d s t =
      (fds t o ≡ some (int d))
      × (t.file_fd ≡ s.file_fd)
      × (t.opened ≡ d ∷ s.opened)
      × (t.strays ≡ s.strays)
      × (tidy ≡ true → Owns (fds t) (d ∷ s.opened))

  Half-IsStable : (o d : ℕ) (s : State) → IsStable (Half o d s)
  Half-IsStable o d s t q e (at, tree, held, none_stray, owns) =
      let f : Object = record (t.objects q) { errno = some (int e) } in
      (
        fds_kept q f t o refl ∙ at,
        tree,
        held,
        none_stray,
        λ y.
            same_fd (fds t) (fds (set_object q f t)) q (d ∷ s.opened) (owns y) (other_objects q f t)
              (this_fd q f t),
      )

  closed-Inv :
      (s : State) (o n : ℕ)
      → Inv tidy s
      → fds s o ≡ some (int n)
      → is_negative n ≡ false
      → (count (to_int n) s.file_fd == 0) ≡ false
      → Inv tidy (closed o (to_int n) s)
  closed-Inv s o n ((same, once, small, none_stray), owns) had pos there =
      let d : ℕ = to_int n in
      let t : State = record s { file_fd = erase d s.file_fd; opened = erase d s.opened } in
      let path : closed o d s ≡ set_fd o minus_one t = ap (set_fd o minus_one) (
        close_open d (record s { file_fd = erase d s.file_fd })
          (ap (λ ys. count d ys == 0) (sym same) ∙ there)) in
      subst (Inv tidy) (sym path) (
        (
          ap (erase d) same,
          λ x. omega (arith, count-erase x d s.opened, once x),
          λ x h. small x (omega (arith, count-erase x d s.opened, h)),
          none_stray,
        ),
        λ y.
            let int : n ≡ d = omega (arith, small n ((owns y).0 o n had pos)) in
            closed_fd (fds s) (fds (set_fd o minus_one t)) o d s.opened (owns y)
              (had ∙ ap (λ k. some (Value.int k)) int)
              (other_objects o (record (s.objects o) { fd = some (Value.int minus_one) }) t)
              (this_fd o (record (s.objects o) { fd = some (Value.int minus_one) }) t),
      )

  -- The same descriptors as before.
  Owned-again :
      (s t : State)
      → Owned s
      → t.file_fd ≡ s.file_fd
      → t.strays ≡ s.strays
      → Owned (record t { opened = s.opened })
  Owned-again s t (same, once, small, stray) tree none_stray =
      (tree ∙ same, once, small, none_stray ∙ stray)

  with_node-Inv :
      (b value : Bool) (o d : ℕ) (s t : State)
      → (tidy ≡ true → b ≡ true)
      → d < 2 ^ 31
      → count d s.opened ≡ 0
      → Inv tidy s
      → Half o d s t
      → Inv tidy (with_node b value o d t).0
  with_node-Inv true value o d s t nodes low fresh ((same, once, small, stray), o1)
        (at, tree, held, none_stray, owns) =
      let s' : State = record t { file_fd = d ∷ t.file_fd } in
      Inv-set_object s' o (record (t.objects o) { locked = true })
        (
          (
            ap (λ xs. d ∷ xs) (tree ∙ same) ∙ sym held,
            λ x. subst (λ xs. count x xs ≤ 1) (sym held) (count_new x d s.opened fresh (once x)),
            λ x h. below_new x d s.opened low (small x) (subst (λ xs. 0 < count x xs) held h),
            none_stray ∙ stray,
          ),
          λ y. subst (Owns (fds t)) (sym held) (owns y),
        )
        refl
  with_node-Inv false value o d s t nodes low fresh (owned, o1) (at, tree, held, none_stray, owns) =
      subst (Inv tidy) (sym (close_new d s.opened t held)) (
        Owned-again s (record t { opened = s.opened }) owned tree none_stray,
        λ y. absurd (cc (nodes y)),
      )

  registered-Inv :
      (c : Call) (io : Io) (o d : ℕ) (s s' : State) (r : Result State)
      → (tidy ≡ true → io.node ≡ true)
      → d < 2 ^ 31
      → count d s.opened ≡ 0
      → Inv tidy s
      → Half o d s s'
      → NotFault r
      → AllKept (Half o d s) r
      → Inv tidy (registered c io o d s' r).state
  registered-Inv c io o d s s' (ok t) nodes low fresh inv half sound kept =
      with_node-Inv io.node io.value o d s t nodes low fresh inv kept
  registered-Inv c io o d s s' (err e) nodes low fresh (owned, o1)
        (at, tree, held, none_stray, owns) sound kept =
      let t : State = record s' { opened = s.opened } in
      let f : Object = record (s'.objects o) { fd = some (int minus_one) } in
      subst (λ u. Inv tidy (set_fd o minus_one u)) (sym (close_new d s.opened s' held))
        (
          Owned-again s (set_object o f t) owned tree none_stray,
          λ y. subst (Owns (fds (set_object o f t))) (erase_head d s.opened) (
              closed_fd (fds s') (fds (set_object o f t)) o d (d ∷ s.opened) (owns y) at
                (other_objects o f t) (this_fd o f t)),
        )
  registered-Inv c io o d s s' fault nodes low fresh inv half sound kept = absurd sound

  returned-Inv :
      (c : Call) (io : Io) (env : Env) (o : ℕ) (fd : Option ℕ) (s : State)
      → ((d : ℕ) → fd ≡ some d → (d < 2 ^ 31) × (count d s.opened ≡ 0))
      → (tidy ≡ true → io.node ≡ true)
      → this_object env ≡ ok o
      → Inv tidy s
      → Inv tidy (returned c io env o fd s).state
  returned-Inv c io env o none s system nodes this inv =
      let s' : State = set_fd o minus_one s in
      let inv' = Inv-gone s o (record (s.objects o) { fd = some (int minus_one) }) inv refl in
      then_set-P (Inv tidy) (set_errno env io.errno s') s' (some c)
        (λ t. granted io.value (Value.bool 0))
        (set_errno-AllKept (Inv tidy) env io.errno s' Inv-IsStable inv') inv'
  returned-Inv c io env o (some d) s system nodes this inv =
      let f : Object = record (s.objects o) { fd = some (int d) } in
      let s' : State = set_fd o d (record s { opened = d ∷ s.opened }) in
      let (low, fresh) = system d refl in
      let half : Half o d s s' = (
        this_fd o f s,
        refl,
        refl,
        refl,
        λ y.
            new_fd (fds s) (fds s') o d s.opened (inv.1 y) fresh (other_objects o f s)
              (this_fd o f s),
      ) in
      registered-Inv c io o d s s' (set_errno env io.errno s') nodes low fresh inv half
        (set_errno-NotFault env io.errno s' o this)
        (set_errno-AllKept (Half o d s) env io.errno s' (Half-IsStable o d s) half)

  Step-Inv : {s t : State} → Inv tidy s → Step tidy s t → Inv tidy t
  Step-Inv {s} inv (method m libc io env system nodes) =
      perform-P (Inv tidy) libc io env s Inv-IsStable inv m
        (λ a c this. returned-Inv c io env a.object io.fd s system nodes this inv)
        (λ o n had pos there. closed-Inv s o n inv had pos there)
  Step-Inv {s} inv (create o) = Inv-gone s o new_file inv refl
  Step-Inv {s} inv (assign_errno o v) =
      Inv-set_object s o (record (s.objects o) { errno = some v }) inv refl
  Step-Inv {s} inv (assign_fd o v untidy free) = (inv.0, λ t. absurd (cc (t, untidy)))

  pub Reach-Inv : {s : State} → Reach tidy s → Inv tidy s
  Reach-Inv here = (
    (refl, (λ d. omega arith), (λ d h. omega (arith, h)), refl),
    λ t. (
      (λ o n at pos. absurd (ground (arith, pos, int_inj minus_one n at))),
      λ o p n at at' pos. absurd (ground (arith, pos, int_inj minus_one n at)),
    ),
  )
  Reach-Inv (next run step) = Step-Inv (Reach-Inv run) step

-- The descriptors of the tree are closed one after the other.
close_all-opened :
    (ds : List ℕ) (s : State)
    → s.opened ≡ ds
    → ((close_all ds s).opened ≡ []) × ((close_all ds s).strays ≡ s.strays)
close_all-opened [] s e = (e, refl)
close_all-opened (d ∷ ds) s e =
    subst (λ t. ((close_all ds t).opened ≡ []) × ((close_all ds t).strays ≡ s.strays))
      (sym (close_new d ds s e)) (close_all-opened ds (record s { opened = ds }) refl)

-- After any sequence of method calls, new objects and assignments of the script to errno and, before
-- open locks it, to fd, whichever allocation is refused, where open(2) returns a descriptor that was
-- not open: at the end of the context every descriptor that the library got is closed, just once, and
-- no other ever was.
pub Reach-closes :
    (tidy : Bool) (s : State)
    → Reach tidy s
    → ((ctx_free s).opened ≡ []) × ((ctx_free s).strays ≡ 0)
Reach-closes tidy s run =
    let ((same, once, small, none_stray), owns) = Reach-Inv tidy run in
    let (all, kept) = close_all-opened s.file_fd s (sym same) in (all, kept ∙ none_stray)
