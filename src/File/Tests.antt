-- ===== src/File/Tests.antt =====
-- File on a concrete object: a file is opened, and read.
use melang.Base.{ℕ, ◌≡◌, refl, subst, Bool, true, false, [], ◌∷◌, some, arith, ◌<◌, ◌^◌, ◌-◌, count}
use melang.Script.{Bytes, int, err, no_memory}
use melang.File.{State, is_negative, ctx_free}
use melang.File.Flags.{rdonly, wronly, open_get_op}
use melang.File.Flags.Wanted.{open_get_op-wanted}
use melang.File.Calls.{Libc, read_call, Io, perform, opens, reads, open_process, read_process}
use melang.File.Run.{start, Reach, here, next, method, Reach-closes}
use melang.File.Uses.{IsUsable, Reach-uses}
use melang.File.Stale.{open_env, read_env, open_process-stale}

abbrev path : Bytes
path = b'f' ∷ []

abbrev op_r : Bytes
op_r = b'r' ∷ []

abbrev libc : Libc
libc = record { ebadf = 9; strerror = λ e. []; data_i = λ v. 0 }

-- open(2) gives descriptor 3; the node is granted or not.
abbrev io : Bool → Io
io node = record {
  fd = some 3;
  position = some 0;
  bytes = some (1 ∷ []);
  count = some 1;
  errno = 0;
  buf = true;
  node = node;
  value = true;
}

open_get_op-wanted_example :
    open_get_op (b'w' ∷ b'+' ∷ [])
    ≡ some (record { access = wronly; creat = true; trunc = false; append = false })
open_get_op-wanted_example = open_get_op-wanted (b'w' ∷ b'+' ∷ [])

-- After the open of a file.
abbrev opened_3 : State
opened_3 = (perform opens libc (io true) (open_env 1 path op_r) start).state

opened_3-Reach : (tidy : Bool) → Reach tidy opened_3
opened_3-Reach tidy = next here (
    method opens libc (io true) (open_env 1 path op_r)
      (λ d got.
        let three : 3 ≡ d = cc (got) in
        subst (λ x. (x < 2 ^ 31) × (count x [] ≡ 0)) three (omega arith, refl))
      (λ t. refl))

Reach-closes_example : ((ctx_free opened_3).opened ≡ []) × ((ctx_free opened_3).strays ≡ 0)
Reach-closes_example = Reach-closes false opened_3 (opened_3-Reach false)

Reach-uses_example :
    IsUsable opened_3 (perform reads libc (io true) (read_env 1 2) opened_3).call
    × ((o p n : ℕ)
        → (opened_3.objects o).fd ≡ some (int n)
        → (opened_3.objects p).fd ≡ some (int n)
        → is_negative n ≡ false
        → o ≡ p)
Reach-uses_example = Reach-uses opened_3 reads libc (io true) (read_env 1 2) (opened_3-Reach true)

flags_r :
    open_get_op op_r
    ≡ some (record { access = rdonly; creat = false; trunc = false; append = false })
flags_r = open_get_op-wanted op_r

open_process-stale_example :
    ((open_process (io false) (open_env 1 path op_r) start).answer ≡ err no_memory)
    × ((read_process libc
          (io true)
          (read_env 1 2)
          (open_process (io false) (open_env 1 path op_r) start).state).call
        ≡ some (read_call 3 2))
    × (count 3 (open_process (io false) (open_env 1 path op_r) start).state.opened ≡ 0)
open_process-stale_example =
    open_process-stale libc (io false) (io true) start 1 3 2 path op_r
      (record { access = rdonly; creat = false; trunc = false; append = false })
      (refl, (2 ^ 64 - 1, refl), (0, refl)) flags_r refl refl refl refl (omega arith) refl refl
