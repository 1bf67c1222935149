-- ===== src/Matrix.antt =====
-- lib_src/matrix/mln_lang_matrix.c: how mul and inv read a matrix from an array, and what they return.
-- The arithmetic on matrices is Melon's.
pub mod Bounds
pub mod RoundTrip
mod Tests
use Prim.Native.String.{String}
use melang.Base.{
  ℕ, zero, suc, ◌+◌, ◌-◌, ◌*◌, ◌/◌, ◌%◌, ◌^◌, Bool, true, false, not, ◌||◌, ◌&&◌, take, List, [],
  ◌∷◌, ◌++◌, Option, none, some, ◌==◌, ltb, leb, if◌then◌else◌,
}
use melang.Script.{
  Value, int, real, array, Symbol, var, other, Env, Result, ok, err, missing, invalid_type,
  invalid_argument, no_memory, no_message, ◌>>=◌,
}

-- mln_matrix_t.
pub record Matrix : Type 0 where
  pub row : ℕ
  pub col : ℕ
  pub numbers : List ℕ

-- What the library takes from outside: the element of an array under a key or an index, which
-- mln_lang_array_get makes with nil when it is missing (`none` when that is refused), the number of an
-- array's elements, and the double of an integer.
pub record Interp : Type 0 where
  pub under : ℕ → String → Option Value
  pub at : ℕ → ℕ → Option Value
  pub elems_num : ℕ → ℕ
  pub double_of : ℕ → ℕ

abbrev pub got : Option Value → Result Value
got none = err no_message
got (some v) = ok v

abbrev pub dimension : Value → Result ℕ
dimension (int i) = ok i
dimension _ = err (invalid_argument 0)

abbrev pub array_number : Value → Result ℕ
array_number (array a) = ok a
array_number _ = err (invalid_argument 0)

-- `(mln_s64_t)n <= 0`.
abbrev pub not_positive : ℕ → Bool
not_positive n = n == 0 || leb (2 ^ 63) n

-- The dimensions that are refused: a product, or its number of bytes, that mln_size_t cannot hold.
abbrev pub refused : ℕ → ℕ → Bool
refused row col =
    not_positive row
    || not_positive col
    || ltb ((2 ^ 64 - 1) / col) row
    || ltb ((2 ^ 64 - 1) / 8) (row * col % 2 ^ 64)

abbrev pub size_of : ℕ → ℕ → Result ℕ
size_of row col = if refused row col then err (invalid_argument 0) else ok (row * col % 2 ^ 64)

-- What the numbers and the matrix are granted.
pub record MatrixGrants : Type 0 where
  pub buf : Bool
  pub matrix : Bool

abbrev pub if_granted : Bool → Result Matrix → Result Matrix
if_granted true r = r
if_granted false r = err no_memory

module _ (ip : Interp) where
  abbrev pub number_of : Value → Result ℕ
  number_of (int i) = ok (ip.double_of i)
  number_of (real f) = ok f
  number_of _ = err (invalid_argument 0)

  -- The loop over the elements of the array of numbers, from `i` on, with `n` rounds left.
  unfoldable pub read_numbers : ℕ → ℕ → ℕ → Result (List ℕ)
  read_numbers a zero i = ok []
  read_numbers a (suc n) i = do
    v ← got (ip.at a i)
    x ← number_of v
    xs ← read_numbers a n (suc i)
    ok (x ∷ xs)

  abbrev pub counted : ℕ → ℕ → Result ℕ
  counted a size = if ip.elems_num a == size then ok a else err (invalid_argument 0)

  -- The numbers are read once there is room for them, then Melon makes the matrix.
  unfoldable pub read_matrix : MatrixGrants → ℕ → ℕ → ℕ → Result Matrix
  read_matrix g row col elements = if_granted g.buf (
      read_numbers elements (ip.elems_num elements) 0 >>= λ xs.
      if_granted g.matrix (ok (record { row = row; col = col; numbers = xs })))

  unfoldable pub with_dimensions : MatrixGrants → ℕ → ℕ → ℕ → Result Matrix
  with_dimensions g a row col = do
    size ← size_of row col
    d ← got (ip.under a "data")
    numbers ← array_number d
    elements ← counted numbers size
    read_matrix g row col elements

  unfoldable pub array2matrix : MatrixGrants → ℕ → Result Matrix
  array2matrix g a = do
    r ← got (ip.under a "row")
    row ← dimension r
    c ← got (ip.under a "col")
    col ← dimension c
    with_dimensions g a row col

-- The array that is returned: its elements in the order in which they are made, a number or the array
-- of the reals.
pub data Entry : Type 0 where
  number : ℕ → Entry
  reals : List ℕ → Entry

-- What the new array is granted: itself and the array of the reals, the copy of a key, the element under
-- it and its value, and each element of the reals and its value.
pub record ExportGrants : Type 0 where
  pub array : Bool
  pub reals : Bool
  pub key : String → Bool
  pub elem : String → Bool
  pub value : String → Bool
  pub real_elem : ℕ → Bool
  pub real_value : ℕ → Bool

-- One element under a key.
abbrev pub put :
    ExportGrants → String → Entry → List (String × Entry) → Result (List (String × Entry))
put g k e es = if g.key k && g.elem k && g.value k then ok (es ++ ((k, e) ∷ [])) else err no_message

-- The loop over the numbers, `i` of them done.
unfoldable pub put_reals : ExportGrants → List ℕ → ℕ → Result (List ℕ)
put_reals g [] i = ok []
put_reals g (x ∷ xs) i =
    let rest = put_reals g xs (suc i) >>= λ ys. ok (x ∷ ys) in
    if g.real_elem i && g.real_value i then rest else err no_message

abbrev pub if_array : Bool → Result (List (String × Entry)) → Result (List (String × Entry))
if_array true r = r
if_array false r = err no_memory

abbrev pub put_data : ExportGrants → Matrix → List (String × Entry) → Result (List (String × Entry))
put_data g m es = do xs ← put_reals g (take (m.row * m.col) m.numbers) 0; put g "data" (reals xs) es

unfoldable pub matrix2array_exp : ExportGrants → Matrix → Result (List (String × Entry))
matrix2array_exp g m = if_array g.array (
    put g "row" (number m.row) [] >>= λ r.
    put g "col" (number m.col) r >>= λ c. if_array g.reals (put_data g m c))

-- The answer of Melon's arithmetic: a matrix, NULL with EINVAL, or NULL with another error.
pub data Arithmetic : Type 0 where
  matrix : Matrix → Arithmetic
  invalid : Arithmetic
  failed : Arithmetic

-- What the answer is granted: the value false, or the array.
pub record AnswerGrants : Type 0 where
  pub no : Bool
  pub export : ExportGrants

pub data Returned : Type 0 where
  no : Returned
  elements : List (String × Entry) → Returned

abbrev pub answer : AnswerGrants → Arithmetic → Result Returned
answer g (matrix m) = do es ← matrix2array_exp g.export m; ok (elements es)
answer g invalid = if g.no then ok no else err no_memory
answer g failed = err no_memory

abbrev pub matrix_arg : ℕ → Option Symbol → Result ℕ
matrix_arg n none = err (missing 0)
matrix_arg n (some (var (array a))) = ok a
matrix_arg n (some s) = err (invalid_type n)

unfoldable pub mul_process :
    Interp → (Matrix → Matrix → Arithmetic) → MatrixGrants → AnswerGrants → Env → Result Returned
mul_process ip mul g h env = do
  a1 ← matrix_arg 1 (env "a1")
  a2 ← matrix_arg 2 (env "a2")
  m1 ← array2matrix ip g a1
  m2 ← array2matrix ip g a2
  answer h (mul m1 m2)

unfoldable pub inv_process :
    Interp → (Matrix → Arithmetic) → MatrixGrants → AnswerGrants → Env → Result Returned
inv_process ip inverse g h env = do
  a ← matrix_arg 0 (env "array")
  m ← array2matrix ip g a
  answer h (inverse m)
