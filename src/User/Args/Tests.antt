-- ===== src/User/Args/Tests.antt =====
-- lib/riscv/args.c on the command line of inc/riscv/args.h: -rx -f foo -- -r.
use zynex_os.Base.{ℕ, ◌≡◌, some, List, [], ◌∷◌, arith}
use zynex_os.User.Args.{argstart}
use zynex_os.User.Args.Flags.{flags_loop, flags_loop-flags_of}

abbrev line : List (List ℕ)
line = (45 ∷ 114 ∷ 120 ∷ []) ∷ (45 ∷ 102 ∷ []) ∷ (45 ∷ 45 ∷ []) ∷ (45 ∷ 114 ∷ []) ∷ []

flags_loop-flags_of_example :
    flags_loop 4 (argstart line) ≡ some (114 ∷ 120 ∷ 102 ∷ [], (45 ∷ 114 ∷ []) ∷ [])
flags_loop-flags_of_example = flags_loop-flags_of 4 line (omega arith)
