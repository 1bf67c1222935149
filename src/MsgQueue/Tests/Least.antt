-- ===== src/MsgQueue/Tests/Least.antt =====
-- A heap for the tests: its minimum by a search of the whole list.
use melang.Base.{
  ℕ, ◌≤◌, ◌<◌, ◌≡◌, refl, List, [], ◌∷◌, none, some, ltb, if◌then◌else◌, count, arith,
}
use melang.MsgQueue.Timeout.{Minimum}
use melang.MsgQueue.Invariant.Timeout.{IsMinimum}

-- A search for the least key.
abbrev best : (ℕ → ℕ) → ℕ → List ℕ → ℕ
best k x [] = x
best k x (y ∷ ys) = best k (if ltb (k y) (k x) then y else x) ys

abbrev pub least_of : Minimum
least_of k [] = none
least_of k (x ∷ xs) = some (best k x xs)

best-member : (k : ℕ → ℕ) (x : ℕ) (ys : List ℕ) → 0 < count (best k x ys) (x ∷ ys)
best-member k x [] = ground arith
best-member k x (y ∷ ys) = ground (arith, best-member k x ys, best-member k y ys)

best-head : (k : ℕ → ℕ) (x : ℕ) (ys : List ℕ) → k (best k x ys) ≤ k x
best-head k x [] = omega arith
best-head k x (y ∷ ys) = ground (arith, best-head k x ys, best-head k y ys)

best-least : (k : ℕ → ℕ) (x d : ℕ) (ys : List ℕ) → 0 < count d ys → k (best k x ys) ≤ k d
best-least k x d [] h = absurd (omega arith)
best-least k x d (y ∷ ys) h =
    ground (arith, best-head k x ys, best-head k y ys, best-least k x d ys, best-least k y d ys)

least_of-empty : (k : ℕ → ℕ) (xs : List ℕ) → least_of k xs ≡ none → xs ≡ []
least_of-empty k [] e = refl
least_of-empty k (x ∷ xs) e = cc

least_of-member : (k : ℕ → ℕ) (xs : List ℕ) (p : ℕ) → least_of k xs ≡ some p → 0 < count p xs
least_of-member k [] p e = cc
least_of-member k (x ∷ xs) p e = ground (arith, best-member k x xs)

least_of-least :
    (k : ℕ → ℕ) (xs : List ℕ) (p d : ℕ) → least_of k xs ≡ some p → 0 < count d xs → k p ≤ k d
least_of-least k [] p d e h = cc
least_of-least k (x ∷ xs) p d e h = ground (arith, best-head k x xs, best-least k x d xs)

pub least_of-IsMinimum : IsMinimum least_of
least_of-IsMinimum = record {
  empty = least_of-empty;
  member = least_of-member;
  least = least_of-least;
}
