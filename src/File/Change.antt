-- ===== src/File/Change.antt =====
-- File: single changes of an object and of the descriptors.
use Prim.Native.String.{String}
use melang.Base.{
  ℕ, ◌^◌, ◌<◌, ◌≤◌, ◌≡◌, refl, ap, subst, ◌∙◌, false, List, ◌∷◌, Option, none, some, ◌==◌, count,
  erase, Bool-cases, inl, inr, ==_iff, ==_refl, arith,
}
use melang.Script.{
  Value, nil, int, bool, real, string, obj, func, array, Env, Result, ok, err, fault, ◌>>=◌,
}
use melang.File.{Object, State, close, set_object, this_object, int_member, set_errno}
use melang.File.Owns.{fds}

pub other_objects :
    (o : ℕ) (f : Object) (s : State) (p : ℕ) → (o == p) ≡ false → fds (set_object o f s) p ≡ fds s p
other_objects o f s p other = rw (other, fds) refl

pub this_fd : (o : ℕ) (f : Object) (s : State) → fds (set_object o f s) o ≡ f.fd
this_fd o f s = rw (==_refl o, fds) refl

pub close_open :
    (d : ℕ) (s : State)
    → (count d s.opened == 0) ≡ false
    → close d s ≡ record s { opened = erase d s.opened }
close_open d s there = rw there refl

pub erase_head : (d : ℕ) (xs : List ℕ) → erase d (d ∷ xs) ≡ xs
erase_head d xs = rw (==_refl d) refl

-- A new descriptor that is closed again.
pub close_new :
    (d : ℕ) (xs : List ℕ) (s : State) → s.opened ≡ d ∷ xs → close d s ≡ record s { opened = xs }
close_new d xs s e =
    close_open d s (ap (λ ys. count d ys == 0) e ∙ ground arith)
    ∙ ap (λ ys. record s { opened = ys }) (ap (erase d) e ∙ erase_head d xs)

abbrev pub NotFault : Result State → Type 0
NotFault (ok t) = Unit
NotFault (err e) = Unit
NotFault fault = ⊥

int_member-NotFault :
    (lack invalid : String) (v : Option Value) (f : ℕ → State)
    → NotFault (int_member lack invalid v >>= λ n. ok (f n))
int_member-NotFault lack invalid none f = tt
int_member-NotFault lack invalid (some nil) f = tt
int_member-NotFault lack invalid (some (int n)) f = tt
int_member-NotFault lack invalid (some (bool b)) f = tt
int_member-NotFault lack invalid (some (real b)) f = tt
int_member-NotFault lack invalid (some (string b)) f = tt
int_member-NotFault lack invalid (some (obj b)) f = tt
int_member-NotFault lack invalid (some (func b)) f = tt
int_member-NotFault lack invalid (some (array b)) f = tt

-- Where the object has been found, errno is set or the member is not.
pub set_errno-NotFault :
    (env : Env) (e : ℕ) (s : State) (o : ℕ) → this_object env ≡ ok o → NotFault (set_errno env e s)
unfolding set_errno
set_errno-NotFault env e s o this = rw this (
    int_member-NotFault "Lack of member 'errno'." "Invalid type of 'errno'." (s.objects o).errno
      (λ n. set_object o (record (s.objects o) { errno = some (int e) }) s))

-- A descriptor more, which was not open.
pub count_new : (x d : ℕ) (xs : List ℕ) → count d xs ≡ 0 → count x xs ≤ 1 → count x (d ∷ xs) ≤ 1
count_new x d xs fresh once = elim (Bool-cases (x == d)) [
  | inl y ↦
      let none_yet : count x xs ≡ 0 = ap (λ k. count k xs) ((==_iff x d).0 y) ∙ fresh in
      rw y omega (arith, none_yet)
  | inr y ↦ rw y omega (arith, once)
]

pub below_new :
    (x d : ℕ) (xs : List ℕ)
    → d < 2 ^ 31
    → (0 < count x xs → x < 2 ^ 31)
    → 0 < count x (d ∷ xs)
    → x < 2 ^ 31
below_new x d xs low small h = elim (Bool-cases (x == d)) [
  | inl y ↦ omega (arith, low, (==_iff x d).0 y)
  | inr y ↦ small (ground (arith, y, h))
]

-- The fd of every object is what it was.
pub fds_kept :
    (q : ℕ) (f : Object) (t : State) (p : ℕ) → f.fd ≡ fds t q → fds (set_object q f t) p ≡ fds t p
fds_kept q f t p same = elim (Bool-cases (q == p)) [
  | inl y ↦
      subst (λ x. fds (set_object q f t) x ≡ fds t x) ((==_iff q p).0 y) (this_fd q f t ∙ same)
  | inr y ↦ other_objects q f t p y
]
