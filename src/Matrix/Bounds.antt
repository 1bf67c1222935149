-- ===== src/Matrix/Bounds.antt =====
-- What mul and inv are given to compute with: no dimension, number of elements or number of bytes has
-- wrapped around.
use native.Mathlib.Nat.{div-mul-le_self, mul-le-mul_right}
use melang.Base.{
  ℕ, zero, suc, ◌-◌, ◌*◌, ◌/◌, ◌%◌, ◌^◌, ◌≤◌, ◌<◌, ◌≡◌, refl, subst, ◌∙◌, Bool, true, false, List,
  length, arith,
}
use melang.Script.{Result, ok, err, ◌>>=◌}
use melang.Matrix.{
  Matrix, Interp, MatrixGrants, got, dimension, array_number, size_of, if_granted, number_of,
  read_numbers, counted, read_matrix, with_dimensions, array2matrix,
}

pub bind-ok {ℓ κ} :
    {A : Type ℓ} {B : Type κ} (r : Result A) (f : A → Result B) (b : B)
    → (r >>= f) ≡ ok b
    → (a : A) × (r ≡ ok a) × (f a ≡ ok b)
bind-ok (ok a) f b h = (a, refl, h)
bind-ok (err e) f b h = absurd (ground (arith, h))
bind-ok Result.fault f b h = absurd (ground (arith, h))

-- A dimension is positive as a signed number, and neither the product nor its bytes overflow.
abbrev pub Fits : ℕ → ℕ → Type 0
Fits row col = (0 < row) × (0 < col) × (row < 2 ^ 63) × (col < 2 ^ 63) × (row * col * 8 < 2 ^ 64)

accepted :
    (row col size : ℕ)
    → size_of row col ≡ ok size
    → (0 < row)
      × (0 < col)
      × (row < 2 ^ 63)
      × (col < 2 ^ 63)
      × (row ≤ (2 ^ 64 - 1) / col)
      × (row * col % 2 ^ 64 ≤ (2 ^ 64 - 1) / 8)
      × (size ≡ row * col % 2 ^ 64)
accepted row col size h = (
  ground (arith, h),
  ground (arith, h),
  ground (arith, h),
  ground (arith, h),
  ground (arith, h),
  ground (arith, h),
  ground (arith, h),
)

size_of-Fits : (row col size : ℕ) → size_of row col ≡ ok size → Fits row col × (size ≡ row * col)
size_of-Fits row col size h =
    let (r, c, rs, cs, le, bytes, e) = accepted row col size h in
    let product : row * col ≤ 2 ^ 64 - 1 =
      omega (arith, mul-le-mul_right col le, div-mul-le_self (2 ^ 64 - 1) col) in
    ((r, c, rs, cs, omega (arith, product, bytes)), omega (arith, product, e))

length-read_numbers :
    (ip : Interp) (a n i : ℕ) (xs : List ℕ) → read_numbers ip a n i ≡ ok xs → length xs ≡ n
unfolding read_numbers
length-read_numbers ip a zero i xs h = ground (arith, h)
length-read_numbers ip a (suc n) i xs h =
    let (v, found, h1) = bind-ok (got (ip.at a i)) _ xs h in
    let (x, num, h2) = bind-ok (number_of ip v) _ xs h1 in
    let (ys, rest, h3) = bind-ok (read_numbers ip a n (suc i)) _ xs h2 in
    ground (arith, h3, length-read_numbers ip a n (suc i) ys rest)

if_granted-ok : (b : Bool) (r : Result Matrix) (m : Matrix) → if_granted b r ≡ ok m → r ≡ ok m
if_granted-ok true r m h = h
if_granted-ok false r m h = absurd (ground (arith, h))

counted-num : (ip : Interp) (a size b : ℕ) → counted ip a size ≡ ok b → ip.elems_num b ≡ size
counted-num ip a size b h = ground (arith, h)

-- What a matrix has to be for the arithmetic.
abbrev pub IsSound : Matrix → Type 0
IsSound m = Fits m.row m.col × (length m.numbers ≡ m.row * m.col)

read_matrix-IsSound :
    (ip : Interp) (g : MatrixGrants) (row col elements : ℕ) (m : Matrix)
    → Fits row col
    → ip.elems_num elements ≡ row * col
    → read_matrix ip g row col elements ≡ ok m
    → IsSound m
unfolding read_matrix
read_matrix-IsSound ip g row col elements m fits num h =
    let (xs, read, h1) =
      bind-ok (read_numbers ip elements (ip.elems_num elements) 0)
        (λ xs. if_granted g.matrix (ok (record { row = row; col = col; numbers = xs }))) m
        (if_granted-ok g.buf _ m h) in
    let made = if_granted-ok g.matrix (ok (record { row = row; col = col; numbers = xs })) m h1 in
    let same : record { row = row; col = col; numbers = xs } ≡ m = ground (arith, made) in
    subst IsSound same
      (fits, length-read_numbers ip elements (ip.elems_num elements) 0 xs read ∙ num)

with_dimensions-IsSound :
    (ip : Interp) (g : MatrixGrants) (a row col : ℕ) (m : Matrix)
    → with_dimensions ip g a row col ≡ ok m
    → IsSound m
unfolding with_dimensions
with_dimensions-IsSound ip g a row col m h =
    let (size, e, h1) = bind-ok (size_of row col) _ m h in
    let (d, found, h2) = bind-ok (got (ip.under a "data")) _ m h1 in
    let (numbers, is, h3) = bind-ok (array_number d) _ m h2 in
    let (elements, same, h4) = bind-ok (counted ip numbers size) (read_matrix ip g row col) m h3 in
    let (fits, product) = size_of-Fits row col size e in
    read_matrix-IsSound ip g row col elements m fits
      (counted-num ip numbers size elements same ∙ product) h4

-- Whatever the script's array holds: a matrix that mul or inv computes with has dimensions that are
-- positive as signed numbers, whose product and its number of bytes are below 2 ^ 64 without wrapping
-- around, and has just as many numbers as that product.
pub array2matrix-IsSound :
    (ip : Interp) (g : MatrixGrants) (a : ℕ) (m : Matrix) → array2matrix ip g a ≡ ok m → IsSound m
unfolding array2matrix
array2matrix-IsSound ip g a m h =
    let (r, e1, h1) = bind-ok (got (ip.under a "row")) _ m h in
    let (row, e2, h2) = bind-ok (dimension r) _ m h1 in
    let (c, e3, h3) = bind-ok (got (ip.under a "col")) _ m h2 in
    let (col, e4, h4) = bind-ok (dimension c) (with_dimensions ip g a row) m h3 in
    with_dimensions-IsSound ip g a row col m h4
