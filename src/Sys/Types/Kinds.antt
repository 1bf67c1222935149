-- ===== src/Sys/Types/Kinds.antt =====
-- What `type`, the tests and the conversions say of one another.
use melang.Base.{
  ℕ, ◌≡◌, refl, ap, subst, ◌∙◌, Bool, true, List, [], ◌∷◌, Option, none, some, All, bytes_eq, arith,
  if◌then◌else◌,
}
use melang.Script.{
  granted, Bytes, Value, nil, int, bool, real, string, obj, func, array, Env, Symbol, var, other,
  Result, ok, given,
}
use melang.Sys.Types.{
  convert, copied_value, to_int, to_real, to_str, nil_name, int_name, bool_name, real_name,
  string_name, object_name, function_name, array_name, true_name, false_name, type_name,
  type_process, boolean, is_int_process, int_test, is_real_process, real_test, is_str_process,
  str_test, is_nil_process, is_bool_process, is_func_process, is_array_process, is_obj_process,
  Machine, ConvertGrants, int_process, real_process, str_process,
}

-- The tests, each with the text that `type` gives for it.
abbrev pub tests : List (Bytes × (Bool → Env → Result Value))
tests =
    (int_name, is_int_process)
    ∷ (real_name, is_real_process)
    ∷ (string_name, is_str_process)
    ∷ (nil_name, is_nil_process)
    ∷ (bool_name, is_bool_process)
    ∷ (function_name, is_func_process)
    ∷ (array_name, is_array_process)
    ∷ (object_name, is_obj_process)
    ∷ []

-- A test answers whether its text is `name`.
abbrev pub Answers : Value → Bytes → Bytes × (Bool → Env → Result Value) → Type 0
Answers v name (t, test) = test true (given v) ≡ ok (boolean (bytes_eq t name))

plain-Answers : (v : Value) → All (Answers v (type_name (λ o. none) v)) tests
unfolding is_int_process is_real_process is_str_process is_nil_process is_bool_process
    is_func_process is_array_process is_obj_process bytes_eq
plain-Answers nil = (refl, (refl, (refl, (refl, (refl, (refl, (refl, (refl, tt))))))))
plain-Answers (int i) = (refl, (refl, (refl, (refl, (refl, (refl, (refl, (refl, tt))))))))
plain-Answers (bool b) = (refl, (refl, (refl, (refl, (refl, (refl, (refl, (refl, tt))))))))
plain-Answers (real f) = (refl, (refl, (refl, (refl, (refl, (refl, (refl, (refl, tt))))))))
plain-Answers (string s) = (refl, (refl, (refl, (refl, (refl, (refl, (refl, (refl, tt))))))))
plain-Answers (obj o) = (refl, (refl, (refl, (refl, (refl, (refl, (refl, (refl, tt))))))))
plain-Answers (func f) = (refl, (refl, (refl, (refl, (refl, (refl, (refl, (refl, tt))))))))
plain-Answers (array a) = (refl, (refl, (refl, (refl, (refl, (refl, (refl, (refl, tt))))))))

plain_name :
    (set_of : ℕ → Option Bytes) (v : Value)
    → ((o : ℕ) → v ≡ obj o → set_of o ≡ none)
    → type_name (λ o. none) v ≡ type_name set_of v
plain_name set_of nil plain = refl
plain_name set_of (int i) plain = refl
plain_name set_of (bool b) plain = refl
plain_name set_of (real f) plain = refl
plain_name set_of (string s) plain = refl
plain_name set_of (obj o) plain = ground (arith, plain o refl)
plain_name set_of (func f) plain = refl
plain_name set_of (array a) plain = refl

-- For a value that is no object, and for an object without a set, of the eight tests just the one answers
-- true whose text `type` returns. (For an object of a set, `type` returns the set's name.)
pub type_process-Answers :
    (set_of : ℕ → Option Bytes) (v : Value) (name : Bytes)
    → ((o : ℕ) → v ≡ obj o → set_of o ≡ none)
    → type_process set_of true (given v) ≡ ok (string name)
    → All (Answers v name) tests
unfolding type_process
type_process-Answers set_of v name plain h =
    let e : type_name set_of v ≡ name = ground (arith, h) in
    subst (λ t. All (Answers v t) tests) (plain_name set_of v plain ∙ e) (plain-Answers v)

granted-inv : (g : ConvertGrants) (w v : Value) → granted g.val w ≡ ok v → (g.val ≡ true) × (w ≡ v)
granted-inv g w v h = ground (arith, h)

copied_value-inv :
    (g : ConvertGrants) (w v : Value) → copied_value g w ≡ ok v → (g.val ≡ true) × (w ≡ v)
copied_value-inv g w v h = ground (arith, h)

int_returns :
    (m : Machine) (g : ConvertGrants) (s : Option Symbol) (v : Value)
    → convert (to_int m g) s ≡ ok v
    → (int_test v ≡ true) × (to_int m g v ≡ ok v)
int_returns m g none v h = absurd (ground (arith, h))
int_returns m g (some other) v h = absurd (ground (arith, h))
int_returns m g (some (var nil)) v h = absurd (ground (arith, h))
int_returns m g (some (var (int i))) v h =
    let (val, e) = granted-inv g (int i) v h in
    subst (λ x. (int_test x ≡ true) × (to_int m g x ≡ ok x)) e (refl, ground (arith, val))
int_returns m g (some (var (bool b))) v h = absurd (ground (arith, h))
int_returns m g (some (var (real f))) v h =
    let (val, e) = granted-inv g (int (m.s64_of f)) v h in
    subst (λ x. (int_test x ≡ true) × (to_int m g x ≡ ok x)) e (refl, ground (arith, val))
int_returns m g (some (var (string s))) v h =
    let (val, e) = copied_value-inv g (int (m.atol s)) v h in
    subst (λ x. (int_test x ≡ true) × (to_int m g x ≡ ok x)) e (refl, ground (arith, val))
int_returns m g (some (var (obj o))) v h = absurd (ground (arith, h))
int_returns m g (some (var (func f))) v h = absurd (ground (arith, h))
int_returns m g (some (var (array a))) v h = absurd (ground (arith, h))

real_returns :
    (m : Machine) (g : ConvertGrants) (s : Option Symbol) (v : Value)
    → convert (to_real m g) s ≡ ok v
    → (real_test v ≡ true) × (to_real m g v ≡ ok v)
real_returns m g none v h = absurd (ground (arith, h))
real_returns m g (some other) v h = absurd (ground (arith, h))
real_returns m g (some (var nil)) v h = absurd (ground (arith, h))
real_returns m g (some (var (int i))) v h =
    let (val, e) = granted-inv g (real (m.double_of i)) v h in
    subst (λ x. (real_test x ≡ true) × (to_real m g x ≡ ok x)) e (refl, ground (arith, val))
real_returns m g (some (var (bool b))) v h = absurd (ground (arith, h))
real_returns m g (some (var (real f))) v h =
    let (val, e) = granted-inv g (real f) v h in
    subst (λ x. (real_test x ≡ true) × (to_real m g x ≡ ok x)) e (refl, ground (arith, val))
real_returns m g (some (var (string s))) v h =
    let (val, e) = copied_value-inv g (real (m.atof s)) v h in
    subst (λ x. (real_test x ≡ true) × (to_real m g x ≡ ok x)) e (refl, ground (arith, val))
real_returns m g (some (var (obj o))) v h = absurd (ground (arith, h))
real_returns m g (some (var (func f))) v h = absurd (ground (arith, h))
real_returns m g (some (var (array a))) v h = absurd (ground (arith, h))

str_returns :
    (m : Machine) (g : ConvertGrants) (s : Option Symbol) (v : Value)
    → convert (to_str m g) s ≡ ok v
    → (str_test v ≡ true) × (to_str m g v ≡ ok v)
str_returns m g none v h = absurd (ground (arith, h))
str_returns m g (some other) v h = absurd (ground (arith, h))
str_returns m g (some (var nil)) v h = absurd (ground (arith, h))
str_returns m g (some (var (int i))) v h =
    let (val, e) = granted-inv g (string (m.print_int i)) v h in
    subst (λ x. (str_test x ≡ true) × (to_str m g x ≡ ok x)) e (refl, ground (arith, val))
str_returns m g (some (var (bool b))) v h =
    let (val, e) =
      granted-inv g (string (if m.condition_is_true (bool b) then true_name else false_name)) v h in
    subst (λ x. (str_test x ≡ true) × (to_str m g x ≡ ok x)) e (refl, ground (arith, val))
str_returns m g (some (var (real f))) v h =
    let (val, e) = granted-inv g (string (m.print_real f)) v h in
    subst (λ x. (str_test x ≡ true) × (to_str m g x ≡ ok x)) e (refl, ground (arith, val))
str_returns m g (some (var (string s))) v h =
    let (val, e) = granted-inv g (string s) v h in
    subst (λ x. (str_test x ≡ true) × (to_str m g x ≡ ok x)) e (refl, ground (arith, val))
str_returns m g (some (var (obj o))) v h = absurd (ground (arith, h))
str_returns m g (some (var (func f))) v h = absurd (ground (arith, h))
str_returns m g (some (var (array a))) v h = absurd (ground (arith, h))

-- Where int, real and str return a value, whatever was converted, it is of the type of that name, as the
-- tests say, and converting it again gives it back.
conversions-typed :
    (m : Machine) (g : ConvertGrants) (env : Env) (v : Value)
    → (int_process m g env ≡ ok v
        → (is_int_process true (given v) ≡ ok (boolean true)) × (int_process m g (given v) ≡ ok v))
      × (real_process m g env ≡ ok v
          → (is_real_process true (given v) ≡ ok (boolean true))
            × (real_process m g (given v) ≡ ok v))
      × (str_process m g env ≡ ok v
          → (is_str_process true (given v) ≡ ok (boolean true))
            × (str_process m g (given v) ≡ ok v))
unfolding int_process real_process str_process is_int_process is_real_process is_str_process
conversions-typed m g env v = (
  (λ h. let (t, again) = int_returns m g (env "var") v h in (ap (λ b. ok (boolean b)) t, again)),
  (λ h. let (t, again) = real_returns m g (env "var") v h in (ap (λ b. ok (boolean b)) t, again)),
  (λ h. let (t, again) = str_returns m g (env "var") v h in (ap (λ b. ok (boolean b)) t, again)),
)
