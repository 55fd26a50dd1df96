-- ===== src/User/Args.antt =====
-- lib/riscv/args.c: the flags of a command line.
-- A string is the list of its characters, none of them NUL; `argv[1]`, ..., `argv[argc - 1]` are the
-- list `rest`, from which the calls take arguments (the `memmove` of `argv + 2` to `argv + 1`, with
-- `argc--`). A null pointer is `none`.
pub mod Flags
pub mod Values
mod Tests
use zynex_os.Base.{
  ℕ, zero, suc, ◌+◌, Option, none, some, List, [], ◌∷◌, ◌==◌, if◌then◌else◌, Bool, true, false,
}

pub record Argstate : Type 0 where
  pub rest : List (List ℕ)
  pub curarg : Option (List ℕ)
  pub argvalue : Option (List ℕ)

-- '-'
abbrev pub minus : ℕ
minus = 45

-- `curarg` is the empty string where there is an argument.
pub argstart : List (List ℕ) → Argstate
argstart [] = record { rest = []; curarg = none; argvalue = none }
argstart (a ∷ rest) = record { rest = a ∷ rest; curarg = some []; argvalue = none }

-- The label `endofargs`; -1 is `none`.
abbrev pub end_of_args : List (List ℕ) → Option ℕ × Argstate
end_of_args rest = (none, record { rest = rest; curarg = none; argvalue = none })

-- `arg = *args->curarg; args->curarg++`
abbrev pub first_char : ℕ → List ℕ → List (List ℕ) → Option ℕ × Argstate
first_char c s rest = (some c, record { rest = rest; curarg = some s; argvalue = none })

-- An argument that is shifted out, past its '-', which `c` follows: `"--"` ends the flags.
abbrev pub shifted : ℕ → List ℕ → List (List ℕ) → Option ℕ × Argstate
shifted c [] rest = if c == minus then end_of_args rest else first_char c [] rest
shifted c (x ∷ s) rest = first_char c (x ∷ s) rest

-- The next argument, when nothing is left of the current one.
abbrev pub next_argument : List (List ℕ) → Option ℕ × Argstate
next_argument [] = end_of_args []
next_argument ([] ∷ rest) = end_of_args ([] ∷ rest)
next_argument ((c ∷ []) ∷ rest) = end_of_args ((c ∷ []) ∷ rest)
next_argument ((c ∷ x ∷ s) ∷ rest) =
    if c == minus then shifted x s rest else end_of_args ((c ∷ x ∷ s) ∷ rest)

abbrev pub argnext_at : Option (List ℕ) → List (List ℕ) → Option ℕ × Argstate
argnext_at none rest = end_of_args rest
argnext_at (some []) rest = next_argument rest
argnext_at (some (c ∷ s)) rest = first_char c s rest

pub argnext : Argstate → Option ℕ × Argstate
argnext args = argnext_at args.curarg args.rest

abbrev pub value_at : Option (List ℕ) → List (List ℕ) → Argstate → Argstate
value_at none rest args = args
value_at (some (c ∷ s)) rest args = record args { argvalue = some (c ∷ s); curarg = some [] }
value_at (some []) (a ∷ rest) args = record args { argvalue = some a; rest = rest }
value_at (some []) [] args = record args { argvalue = none; curarg = none }

-- The value is null where there is no current argument.
pub argnextvalue : Argstate → Option (List ℕ) × Argstate
argnextvalue args =
    let args' = value_at args.curarg args.rest args in
    (elim args.curarg [ none ↦ none | some _ ↦ args'.argvalue ], args')

pub argvalue : Argstate → Option (List ℕ) × Argstate
unfolding argnextvalue
argvalue args = elim args.argvalue [ some v ↦ (some v, args) | none ↦ argnextvalue args ]
