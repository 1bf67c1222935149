-- ===== src/Matrix/RoundTrip.antt =====
-- The array that mul and inv return is read back as the matrix that they computed.
use text.Mathlib.Text.{◌==◌ as str_eq}
use Prim.Native.String.{String}
use native.Mathlib.Nat.{le-div_iff_mul-le}
use melang.Base.{
  ℕ, zero, suc, ◌-◌, ◌*◌, ◌/◌, ◌^◌, ◌≤◌, ◌≡◌, refl, ap, sym, subst, true, ◌&&◌, List, [], ◌∷◌,
  Option, none, some, ==_refl, length, take, drop, arith, if◌then◌else◌,
}
use melang.Script.{Value, int, real, array, ok}
use melang.Matrix.{
  Matrix, Interp, MatrixGrants, size_of, read_numbers, read_matrix, with_dimensions, array2matrix,
  Entry, number, reals, ExportGrants, put_reals, matrix2array_exp,
}
use melang.Matrix.Bounds.{Fits, IsSound}

-- The elements of an array of `entries` as the interpreter finds them. The array of the reals has the
-- number `b`.
abbrev pub value_of : ℕ → Entry → Value
value_of b (number i) = int i
value_of b (reals xs) = array b

unfoldable pub find : String → List (String × Entry) → Option Entry
find k [] = none
find k ((l, e) ∷ es) = let rest = find k es in if str_eq k l then some e else rest

abbrev pub found_value : ℕ → Option Entry → Option Value
found_value b none = none
found_value b (some e) = some (value_of b e)

abbrev pub the_reals : Option Entry → List ℕ
the_reals (some (reals xs)) = xs
the_reals e = []

abbrev pub real_at : ℕ → List ℕ → Option Value
real_at i [] = none
real_at zero (x ∷ xs) = some (real x)
real_at (suc i) (x ∷ xs) = real_at i xs

-- The interpreter finds these elements in the array `a`, and the reals in the array `b`.
abbrev pub Finds : Interp → ℕ → ℕ → List (String × Entry) → Type 0
Finds ip a b es =
    ((k : String) → ip.under a k ≡ found_value b (find k es))
    × ((i : ℕ) → ip.at b i ≡ real_at i (the_reals (find "data" es)))
    × (ip.elems_num b ≡ length (the_reals (find "data" es)))

-- Everything that the new array asks for is granted.
abbrev pub AllGranted : ExportGrants → Type 0
AllGranted g =
    (g.array ≡ true)
    × (g.reals ≡ true)
    × ((k : String) → (g.key k && g.elem k && g.value k) ≡ true)
    × ((i : ℕ) → (g.real_elem i && g.real_value i) ≡ true)

abbrev pub exported : Matrix → List (String × Entry)
exported m = ("row", number m.row) ∷ ("col", number m.col) ∷ ("data", reals m.numbers) ∷ []

put_reals-granted :
    (g : ExportGrants) (xs : List ℕ) (i : ℕ) → AllGranted g → put_reals g xs i ≡ ok xs
unfolding put_reals
put_reals-granted g [] i all = refl
put_reals-granted g (x ∷ xs) i all =
    let (_, _, _, each) = all in rw (each i, put_reals-granted g xs (suc i) all) refl

take_all : (xs : List ℕ) → take (length xs) xs ≡ xs
take_all [] = refl
take_all (x ∷ xs) = ap (λ ys. x ∷ ys) (take_all xs)

matrix2array_exp-granted :
    (g : ExportGrants) (m : Matrix)
    → AllGranted g
    → IsSound m
    → matrix2array_exp g m ≡ ok (exported m)
unfolding matrix2array_exp put_reals
matrix2array_exp-granted g m all (fits, num) =
    let (a, b, c, d) = all in
    rw
      (
        a,
        c "row",
        c "col",
        b,
        sym num,
        take_all m.numbers,
        put_reals-granted g m.numbers 0 all,
        c "data",
      )
      refl

size_of-accepts : (row col : ℕ) → Fits row col → size_of row col ≡ ok (row * col)
size_of-accepts row col (r, c, rs, cs, bytes) =
    let le : row ≤ (2 ^ 64 - 1) / col = (le-div_iff_mul-le c).1 (omega (arith, bytes)) in
    ground (arith, r, c, rs, cs, bytes, le)

real_at-drop :
    (i : ℕ) (xs : List ℕ) (y : ℕ) (ys : List ℕ)
    → drop i xs ≡ y ∷ ys
    → (real_at i xs ≡ some (real y)) × (drop (suc i) xs ≡ ys)
real_at-drop zero [] y ys h = absurd (ground (arith, h))
real_at-drop (suc i) [] y ys h = absurd (ground (arith, h))
real_at-drop zero (x ∷ xs) y ys h = ground (arith, h)
real_at-drop (suc i) (x ∷ xs) y ys h = real_at-drop i xs y ys h

read_numbers-all :
    (ip : Interp) (a : ℕ) (xs ys : List ℕ) (i : ℕ)
    → ((j : ℕ) → ip.at a j ≡ real_at j xs)
    → drop i xs ≡ ys
    → read_numbers ip a (length ys) i ≡ ok ys
unfolding read_numbers
read_numbers-all ip a xs [] i at h = refl
read_numbers-all ip a xs (y ∷ ys) i at h =
    let (here, there) = real_at-drop i xs y ys h in
    rw (at i, here, read_numbers-all ip a xs ys (suc i) at there) refl

-- With all memory granted, the array that mul and inv return for a matrix with sound dimensions is read
-- back by them as that matrix, by every interpreter that finds its elements in it.
pub array2matrix-matrix2array_exp :
    (g : ExportGrants) (h : MatrixGrants) (ip : Interp) (a b : ℕ) (m : Matrix)
    → AllGranted g
    → h.buf ≡ true
    → h.matrix ≡ true
    → IsSound m
    → Finds ip a b (exported m)
    → (matrix2array_exp g m ≡ ok (exported m)) × (array2matrix ip h a ≡ ok m)
unfolding array2matrix with_dimensions read_matrix read_numbers find
array2matrix-matrix2array_exp g h ip a b m all buf made sound (under, at, elems) =
    let (fits, num) = sound in
    let all_read : read_numbers ip b (ip.elems_num b) 0 ≡ ok m.numbers =
      subst (λ n. read_numbers ip b n 0 ≡ ok m.numbers) (sym elems)
        (read_numbers-all ip b m.numbers m.numbers 0 at refl) in
    (
      matrix2array_exp-granted g m all sound,
      rw
          (
            under "row",
            under "col",
            under "data",
            size_of-accepts m.row m.col fits,
            elems,
            num,
            ==_refl (m.row * m.col),
            buf,
            made,
            all_read,
          )
          refl,
    )
