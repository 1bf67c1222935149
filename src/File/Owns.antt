-- ===== src/File/Owns.antt =====
-- File: the fd of each object, and the descriptors that are open.
use melang.Base.{
  ℕ, ◌<◌, ◌≡◌, sym, ap, subst, ◌∙◌, inl, inr, false, List, ◌∷◌, Option, some, ◌==◌, count, erase,
  count-erase, Bool-cases, ==_iff, arith,
}
use melang.Script.{Value, int}
use melang.File.{State, is_negative, minus_one}

-- An fd that is not negative is open, and no other object has it.
abbrev pub Owns : (ℕ → Option Value) → List ℕ → Type 0
Owns fds xs =
    ((o n : ℕ) → fds o ≡ some (int n) → is_negative n ≡ false → 0 < count n xs)
    × ((o p n : ℕ) → fds o ≡ some (int n) → fds p ≡ some (int n) → is_negative n ≡ false → o ≡ p)

abbrev pub fds : State → ℕ → Option Value
fds s p = (s.objects p).fd

-- One object changes.
pub replace :
    (f g : ℕ → Option Value) (o : ℕ) (xs ys : List ℕ)
    → Owns f xs
    → ((p : ℕ) → (o == p) ≡ false → g p ≡ f p)
    → ((n : ℕ)
        → g o ≡ some (int n)
        → is_negative n ≡ false
        → (0 < count n ys) × ((p : ℕ) → (o == p) ≡ false → ¬ (f p ≡ some (int n))))
    → ((p n : ℕ) → (o == p) ≡ false → f p ≡ some (int n) → is_negative n ≡ false → 0 < count n ys)
    → Owns g ys
replace f g o xs ys (held, one) others own rest = (
  λ p n at pos. elim (Bool-cases (o == p)) [
    | inl y ↦ (own n (subst (λ q. g q ≡ some (int n)) (sym ((==_iff o p).0 y)) at) pos).0
    | inr y ↦ rest p n y (sym (others p y) ∙ at) pos
  ],
  λ p q n at at' pos. elim (Bool-cases (o == p)) [
    | inl y ↦ elim (Bool-cases (o == q)) [
      | inl z ↦ sym ((==_iff o p).0 y) ∙ (==_iff o q).0 z
      | inr z ↦ absurd (
          (own n (subst (λ x. g x ≡ some (int n)) (sym ((==_iff o p).0 y)) at) pos).1 q z
            (sym (others q z) ∙ at'))
    ]
    | inr y ↦ elim (Bool-cases (o == q)) [
      | inl z ↦ absurd (
          (own n (subst (λ x. g x ≡ some (int n)) (sym ((==_iff o q).0 z)) at') pos).1 p y
            (sym (others p y) ∙ at))
      | inr z ↦ one p q n (sym (others p y) ∙ at) (sym (others q z) ∙ at') pos
    ]
  ],
)

pub int_inj : (m n : ℕ) → some (int m) ≡ some (int n) → m ≡ n
int_inj m n h = cc (h)

-- The object changes, its fd does not.
pub same_fd :
    (f g : ℕ → Option Value) (o : ℕ) (xs : List ℕ)
    → Owns f xs
    → ((p : ℕ) → (o == p) ≡ false → g p ≡ f p)
    → g o ≡ f o
    → Owns g xs
same_fd f g o xs owns others same =
    replace f g o xs xs owns others
      (λ n at pos. (
        owns.0 o n (sym same ∙ at) pos,
        λ p other at'. absurd (ground (arith, other, owns.1 o p n (sym same ∙ at) at' pos)),
      ))
      (λ p n other at pos. owns.0 p n at pos)

-- The object gets the fd -1, and what it had may be closed.
pub no_fd :
    (f g : ℕ → Option Value) (o : ℕ) (xs ys : List ℕ)
    → Owns f xs
    → ((p : ℕ) → (o == p) ≡ false → g p ≡ f p)
    → g o ≡ some (int minus_one)
    → ((p n : ℕ) → (o == p) ≡ false → f p ≡ some (int n) → is_negative n ≡ false → 0 < count n ys)
    → Owns g ys
no_fd f g o xs ys owns others gone rest =
    replace f g o xs ys owns others
      (λ n at pos. absurd (ground (arith, pos, int_inj minus_one n (sym gone ∙ at)))) rest

-- The object gets a descriptor that was not open.
pub new_fd :
    (f g : ℕ → Option Value) (o d : ℕ) (xs : List ℕ)
    → Owns f xs
    → count d xs ≡ 0
    → ((p : ℕ) → (o == p) ≡ false → g p ≡ f p)
    → g o ≡ some (int d)
    → Owns g (d ∷ xs)
new_fd f g o d xs owns fresh others new =
    replace f g o xs (d ∷ xs) owns others
      (λ n at pos.
        let same : d ≡ n = int_inj d n (sym new ∙ at) in
        (
          ground (arith, same),
          λ p other at'. absurd (
              omega (
                arith,
                fresh,
                same,
                owns.0 p d (at' ∙ ap (λ k. some (int k)) (sym same)) (ap is_negative same ∙ pos),
              )),
        ))
      (λ p n other at pos. ground (arith, owns.0 p n at pos))

-- The descriptor of an object is closed.
pub closed_fd :
    (f g : ℕ → Option Value) (o d : ℕ) (xs : List ℕ)
    → Owns f xs
    → f o ≡ some (int d)
    → ((p : ℕ) → (o == p) ≡ false → g p ≡ f p)
    → g o ≡ some (int minus_one)
    → Owns g (erase d xs)
closed_fd f g o d xs owns had others gone =
    no_fd f g o xs (erase d xs) owns others gone (λ p n other at pos. elim (Bool-cases (n == d)) [
      | inl y ↦ absurd (
          ground (
            arith,
            other,
            owns.1 o p n (had ∙ ap (λ k. some (int k)) (sym ((==_iff n d).0 y))) at pos,
          ))
      | inr y ↦ ground (arith, y, count-erase n d xs, owns.0 p n at pos)
    ])
