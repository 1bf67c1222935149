-- ===== src/Matrix/Tests.antt =====
-- The matrix with the row 0, 1 read from an array.
use text.Mathlib.Text.{◌==◌ as str_eq}
use Prim.Native.String.{String}
use melang.Base.{ℕ, ◌≡◌, refl, [], ◌∷◌, Option, some, true, length, if◌then◌else◌}
use melang.Script.{Value, int, real, array, ok}
use melang.Matrix.{Matrix, Interp, array2matrix, with_dimensions, read_matrix, read_numbers}
use melang.Matrix.{ExportGrants, matrix2array_exp}
use melang.Matrix.RoundTrip.{
  Finds, find, found_value, real_at, exported, array2matrix-matrix2array_exp,
}
use melang.Matrix.Bounds.{IsSound, array2matrix-IsSound}

abbrev row_of : ℕ → String → Option Value
row_of a name =
    if str_eq name "row"
    then some (int 1)
    else (if str_eq name "col" then some (int 2) else some (array 5))

abbrev interp : Interp
interp = record {
  under = row_of;
  at = λ a i. some (real i);
  elems_num = λ a. 2;
  double_of = λ i. i;
}

abbrev zero_one : Matrix
zero_one = record { row = 1; col = 2; numbers = 0 ∷ 1 ∷ [] }

zero_one_read : array2matrix interp (record { buf = true; matrix = true }) 4 ≡ ok zero_one
unfolding array2matrix with_dimensions read_matrix read_numbers
zero_one_read = refl

array2matrix-IsSound_example : IsSound zero_one
array2matrix-IsSound_example =
    array2matrix-IsSound interp (record { buf = true; matrix = true }) 4 zero_one zero_one_read

abbrev export_all : ExportGrants
export_all = record {
  array = true;
  reals = true;
  key = λ k. true;
  elem = λ k. true;
  value = λ k. true;
  real_elem = λ i. true;
  real_value = λ i. true;
}

-- An interpreter that looks the elements up; the array of the reals has the number 1.
abbrev holding : Interp
holding = record {
  under = λ a k. found_value 1 (find k (exported zero_one));
  at = λ a i. real_at i zero_one.numbers;
  elems_num = λ a. length zero_one.numbers;
  double_of = λ i. i;
}

holding-Finds : Finds holding 4 1 (exported zero_one)
unfolding find
holding-Finds = ((λ k. refl), (λ i. refl), refl)

array2matrix-matrix2array_exp_example :
    (matrix2array_exp export_all zero_one ≡ ok (exported zero_one))
    × (array2matrix holding (record { buf = true; matrix = true }) 4 ≡ ok zero_one)
array2matrix-matrix2array_exp_example =
    array2matrix-matrix2array_exp export_all (record { buf = true; matrix = true }) holding 4 1
      zero_one (refl, refl, (λ k. refl), (λ i. refl)) refl refl
      (array2matrix-IsSound interp (record { buf = true; matrix = true }) 4 zero_one zero_one_read)
      holding-Finds
