-- ===== src/Sys/Properties/SetGet.antt =====
-- getter and has after setter.
use melang.Base.{
  ℕ, ◌≡◌, refl, ap, ==_refl, Bool, true, false, ◌&&◌, [], ◌∷◌, Option, none, some, ◌==◌, bytes_eq,
  bytes_eq_refl, arith,
}
use melang.Script.{Bytes, Value, string, obj, Symbol, Env, ok, args}
use melang.Sys.Properties.{
  Members, SetterGrants, setter_args, setter_process, getter_process, has_process, member_kind,
  set_or_create,
}

abbrev pub setter_env : ℕ → Bytes → Value → Env
setter_env o name v = args (("obj", obj o) ∷ ("prop", string name) ∷ ("val", v) ∷ [])

abbrev pub getter_env : ℕ → Bytes → Env
getter_env o name = args (("obj", obj o) ∷ ("prop", string name) ∷ [])

abbrev pub has_env : ℕ → Bytes → Env
has_env o name = args (("owner", obj o) ∷ ("thing", string name) ∷ [])

abbrev pub granted_all : SetterGrants
granted_all = record { var = true; node = true; value = true }

-- Setting a property, found or not, leaves the value there and changes no other.
set_or_create-sets :
    (members : Members) (o : ℕ) (name : Bytes) (v : Value) (found : Option Value)
    → let (after, r) =
        set_or_create granted_all (record { owner = o; name = name; value = v }) members found in
      (r ≡ ok v)
      × (after o name ≡ some v)
      × ((p : ℕ) (l : Bytes) → (p == o && bytes_eq l name) ≡ false → after p l ≡ members p l)
set_or_create-sets members o name v none =
    (refl, ground (arith, ==_refl o, bytes_eq_refl name), (λ p l other. ground (arith, other)))
set_or_create-sets members o name v (some w) =
    (refl, ground (arith, ==_refl o, bytes_eq_refl name), (λ p l other. ground (arith, other)))

-- Where every allocation is granted, setter returns the value, whether the property was there or not,
-- and afterwards getter returns it, has says of which kind it is, and no other property of any object
-- has changed.
pub setter-getter-has :
    (scope : Bytes → Option Symbol) (elem_exist : ℕ → Value → Bool) (members : Members) (o : ℕ)
    (name : Bytes) (v : Value)
    → let (after, r) = setter_process granted_all (setter_env o name v) members in
      (r ≡ ok v)
      × (getter_process (getter_env o name) after ≡ ok v)
      × (has_process scope elem_exist true (has_env o name) after ≡ ok (member_kind (some v)))
      × ((p : ℕ) (l : Bytes) → (p == o && bytes_eq l name) ≡ false → after p l ≡ members p l)
unfolding setter_process getter_process has_process setter_args
setter-getter-has scope elem_exist members o name v =
    let (answer, there, others) = set_or_create-sets members o name v (members o name) in
    (answer, ground (arith, there), ap (λ m. ok (member_kind m)) there, others)
