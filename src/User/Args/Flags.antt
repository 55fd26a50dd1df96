-- ===== src/User/Args/Flags.antt =====
-- What the loop `while ((i = argnext(&args)) >= 0)` of a program finds on its command line.
use zynex_os.Base.{
  ℕ, zero, suc, ◌<◌, ◌≡◌, refl, ◌∙◌, ap, ◌⊎◌, inl, inr, Option, none, some, List, [], ◌∷◌, ◌++◌,
  arith, ◌==◌, if◌then◌else◌, true, false, length, Bool-cases,
}
use zynex_os.User.Args.{Argstate, minus, argstart, end_of_args, first_char, argnext}

abbrev and_then : ℕ → Option (List ℕ × List (List ℕ)) → Option (List ℕ × List (List ℕ))
and_then c none = none
and_then c (some (cs, rest)) = some (c ∷ cs, rest)

-- The loop, with fuel: the flags in order, and the arguments that are left.
pub flags_loop : ℕ → Argstate → Option (List ℕ × List (List ℕ))
unfolding argnext
flags_loop zero args = none
flags_loop (suc fuel) args =
    let (arg, args') = argnext args in
    elim arg [ none ↦ some ([], args'.rest) | some c ↦ and_then c (flags_loop fuel args') ]

-- The flags of a command line by their description in inc/riscv/args.h: the characters after the '-'
-- of each argument that has some, up to the first argument that has none; "--" ends the flags and is
-- not left.
abbrev pub flags_of : List (List ℕ) → List ℕ × List (List ℕ)
flags_of [] = ([], [])
flags_of ([] ∷ rest) = ([], [] ∷ rest)
flags_of ((c ∷ []) ∷ rest) = ([], (c ∷ []) ∷ rest)
flags_of ((c ∷ x ∷ []) ∷ rest) =
    let (cs, left) = flags_of rest in
    if c == minus
    then (if x == minus then ([], rest) else (x ∷ cs, left))
    else ([], (c ∷ x ∷ []) ∷ rest)
flags_of ((c ∷ x ∷ y ∷ s) ∷ rest) =
    let (cs, left) = flags_of rest in
    if c == minus then (x ∷ y ∷ s ++ cs, left) else ([], (c ∷ x ∷ y ∷ s) ∷ rest)

abbrev prefixed : List ℕ → List ℕ × List (List ℕ) → List ℕ × List (List ℕ)
prefixed s (cs, left) = (s ++ cs, left)

flags_loop-end :
    (fuel : ℕ) (args : Argstate) (rest : List (List ℕ))
    → argnext args ≡ end_of_args rest
    → flags_loop (suc fuel) args ≡ some ([], rest)
unfolding flags_loop
flags_loop-end fuel args rest e =
    ap
      (λ (r : Option ℕ × Argstate). elim r.0 as (λ _. Option (List ℕ × List (List ℕ))) [
        | none ↦ some ([], r.1.rest)
        | some c ↦ and_then c (flags_loop fuel r.1)
      ])
      e

flags_loop-char :
    (fuel c : ℕ) (args : Argstate) (s : List ℕ) (rest left : List (List ℕ)) (cs : List ℕ)
    → argnext args ≡ first_char c s rest
    → flags_loop fuel (first_char c s rest).1 ≡ some (cs, left)
    → flags_loop (suc fuel) args ≡ some (c ∷ cs, left)
unfolding flags_loop
flags_loop-char fuel c args s rest left cs e e' =
    ap
      (λ (r : Option ℕ × Argstate). elim r.0 as (λ _. Option (List ℕ × List (List ℕ))) [
        | none ↦ some ([], r.1.rest)
        | some d ↦ and_then d (flags_loop fuel r.1)
      ])
      e
    ∙ ap (and_then c) e'

-- The loop from within an argument, of which `s` is left.
flags_loop_lem :
    (fuel : ℕ) (s : List ℕ) (rest : List (List ℕ)) (v : Option (List ℕ))
    → length (prefixed s (flags_of rest)).0 < fuel
    → flags_loop fuel (record { rest = rest; curarg = some s; argvalue = v })
      ≡ some (prefixed s (flags_of rest))
unfolding flags_loop argnext
flags_loop_lem zero s rest v h = absurd (omega arith)
flags_loop_lem (suc fuel) (c ∷ s) rest v h =
    ap (and_then c) (flags_loop_lem fuel s rest none (omega arith))
flags_loop_lem (suc fuel) [] [] v h = refl
flags_loop_lem (suc fuel) [] ([] ∷ rest) v h = refl
flags_loop_lem (suc fuel) [] ((c ∷ []) ∷ rest) v h = refl
flags_loop_lem (suc fuel) [] ((c ∷ x ∷ []) ∷ rest) v h =
    go (flags_loop_lem fuel [] rest none) (Bool-cases (c == minus)) (Bool-cases (x == minus))
  where
    args : Argstate
    args = record { rest = (c ∷ x ∷ []) ∷ rest; curarg = some []; argvalue = v }

    go :
        (length (flags_of rest).0 < fuel
          → flags_loop fuel (first_char x [] rest).1 ≡ some (flags_of rest))
        → ((c == minus) ≡ true) ⊎ ((c == minus) ≡ false)
        → ((x == minus) ≡ true) ⊎ ((x == minus) ≡ false)
        → flags_loop (suc fuel) args ≡ some (prefixed [] (flags_of ((c ∷ x ∷ []) ∷ rest)))
    go again (inr e) d =
        flags_loop-end fuel args ((c ∷ x ∷ []) ∷ rest) (ground (arith, e)) ∙ ground (arith, e)
    go again (inl e) (inl d) =
        flags_loop-end fuel args rest (ground (arith, e, d)) ∙ ground (arith, e, d)
    go again (inl e) (inr d) =
        flags_loop-char fuel x args [] rest (flags_of rest).1 (flags_of rest).0
          (ground (arith, e, d)) (again (ground (arith, e, d, h)))
        ∙ ground (arith, e, d)
flags_loop_lem (suc fuel) [] ((c ∷ x ∷ y ∷ s) ∷ rest) v h =
    go (flags_loop_lem fuel (y ∷ s) rest none) (Bool-cases (c == minus))
  where
    args : Argstate
    args = record { rest = (c ∷ x ∷ y ∷ s) ∷ rest; curarg = some []; argvalue = v }

    go :
        (length (prefixed (y ∷ s) (flags_of rest)).0 < fuel
          → flags_loop fuel (first_char x (y ∷ s) rest).1 ≡ some (prefixed (y ∷ s) (flags_of rest)))
        → ((c == minus) ≡ true) ⊎ ((c == minus) ≡ false)
        → flags_loop (suc fuel) args ≡ some (prefixed [] (flags_of ((c ∷ x ∷ y ∷ s) ∷ rest)))
    go again (inr e) =
        flags_loop-end fuel args ((c ∷ x ∷ y ∷ s) ∷ rest) (ground (arith, e)) ∙ ground (arith, e)
    go again (inl e) =
        flags_loop-char fuel x args (y ∷ s) rest (flags_of rest).1 (y ∷ s ++ (flags_of rest).0)
          (ground (arith, e)) (again (ground (arith, e, h)))
        ∙ ground (arith, e)

-- From argstart, the loop of argnext gives exactly the flags that the description lists, and leaves
-- exactly the arguments after them, whenever its fuel is more than the number of the flags.
pub flags_loop-flags_of :
    (fuel : ℕ) (args : List (List ℕ))
    → length (flags_of args).0 < fuel
    → flags_loop fuel (argstart args) ≡ some (flags_of args)
unfolding flags_loop argnext argstart
flags_loop-flags_of zero args h = absurd (omega arith)
flags_loop-flags_of (suc fuel) [] h = refl
flags_loop-flags_of (suc fuel) (a ∷ args) h = flags_loop_lem (suc fuel) [] (a ∷ args) none h
