-- ===== src/User/Args/Values.antt =====
-- What argnextvalue and argvalue of lib/riscv/args.c answer after a flag.
use zynex_os.Base.{
  ℕ, zero, suc, ◌+◌, ◌<◌, ◌≡◌, refl, sym, ap, ap₂, subst, Option, none, some, List, [], ◌∷◌, arith,
  ◌==◌, if◌then◌else◌, true, false, length, get_elem?,
}
use zynex_os.User.Args.{
  Argstate, minus, end_of_args, first_char, shifted, argnext_at, argnext, argnextvalue, argvalue,
}

abbrev and_then_value : List ℕ → Option (List (List ℕ)) → Option (List (List ℕ))
and_then_value v none = none
and_then_value v (some vs) = some (v ∷ vs)

-- Repeated calls of argnextvalue, until it answers null, with fuel.
pub values_loop : ℕ → Argstate → Option (List (List ℕ))
unfolding argnextvalue
values_loop zero args = none
values_loop (suc fuel) args =
    let (value, args') = argnextvalue args in
    elim value [ none ↦ some [] | some v ↦ and_then_value v (values_loop fuel args') ]

-- What follows a flag: the rest of its argument, if it has one, then all arguments.
abbrev pub values_of : List ℕ → List (List ℕ) → List (List ℕ)
values_of [] rest = rest
values_of (c ∷ s) rest = (c ∷ s) ∷ rest

values_loop-rest :
    (fuel : ℕ) (rest : List (List ℕ)) (v : Option (List ℕ))
    → length rest < fuel
    → values_loop fuel (record { rest = rest; curarg = some []; argvalue = v }) ≡ some rest
unfolding values_loop argnextvalue
values_loop-rest zero rest v h = absurd (omega arith)
values_loop-rest (suc fuel) [] v h = refl
values_loop-rest (suc fuel) (a ∷ rest) v h =
    ap (and_then_value a) (values_loop-rest fuel rest (some a) (omega arith))

-- What a call of argnext that answers a character leaves.
abbrev InFlag : Option ℕ × Argstate → Type 0
InFlag (none, args) = Unit {0}
InFlag (some c, args) = (s : List ℕ) × (args.curarg ≡ some s) × (args.argvalue ≡ none)

shifted-InFlag : (c : ℕ) (s : List ℕ) (rest : List (List ℕ)) → InFlag (shifted c s rest)
shifted-InFlag c [] rest =
    elim (c == minus) as (λ b. InFlag (if b then end_of_args rest else first_char c [] rest)) [
      | true ↦ tt
      | false ↦ ([], refl, refl)
    ]
shifted-InFlag c (x ∷ s) rest = (x ∷ s, refl, refl)

argnext_at-InFlag : (cur : Option (List ℕ)) (rest : List (List ℕ)) → InFlag (argnext_at cur rest)
argnext_at-InFlag none rest = tt
argnext_at-InFlag (some (c ∷ s)) rest = (s, refl, refl)
argnext_at-InFlag (some []) [] = tt
argnext_at-InFlag (some []) ([] ∷ rest) = tt
argnext_at-InFlag (some []) ((c ∷ []) ∷ rest) = tt
argnext_at-InFlag (some []) ((c ∷ x ∷ s) ∷ rest) =
    elim (c == minus)
      as (λ b. InFlag (if b then shifted x s rest else end_of_args ((c ∷ x ∷ s) ∷ rest))) [
        | true ↦ shifted-InFlag x s rest
        | false ↦ tt
      ]

argnext-InFlag :
    (c : ℕ) (args args' : Argstate) → argnext args ≡ (some c, args') → InFlag (some c, args')
unfolding argnext
argnext-InFlag c args args' e = subst InFlag e (argnext_at-InFlag args.curarg args.rest)

abbrev Values : ℕ → List ℕ → Argstate → Type 0
Values fuel s args =
    (values_loop fuel args ≡ some (values_of s args.rest))
    × ((argvalue args).0 ≡ get_elem? (values_of s args.rest) 0)
    × (argvalue (argvalue args).1 ≡ argvalue args)

values_lem :
    (fuel : ℕ) (s : List ℕ) (rest : List (List ℕ))
    → length rest + 1 < fuel
    → Values fuel s (record { rest = rest; curarg = some s; argvalue = none })
unfolding values_loop argnextvalue argvalue
values_lem zero s rest h = absurd (omega arith)
values_lem (suc fuel) [] [] h = (refl, refl, refl)
values_lem (suc fuel) [] (a ∷ rest) h =
    (values_loop-rest (suc fuel) (a ∷ rest) none (omega arith), refl, refl)
values_lem (suc fuel) (c ∷ s) rest h = (
  ap (and_then_value (c ∷ s)) (values_loop-rest fuel rest (some (c ∷ s)) (omega arith)),
  refl,
  refl,
)

-- After argnext has answered a flag, repeated calls of argnextvalue answer what is left of the flag's
-- own argument, if anything is, then every argument that is left, then null, whenever the fuel is
-- more than the number of those; and argvalue answers the first of them, also when it is repeated.
pub values_loop-values_of :
    (fuel c : ℕ) (args args' : Argstate)
    → argnext args ≡ (some c, args')
    → length args'.rest + 1 < fuel
    → (s : List ℕ) × (args'.curarg ≡ some s)
      × (values_loop fuel args' ≡ some (values_of s args'.rest))
      × ((argvalue args').0 ≡ get_elem? (values_of s args'.rest) 0)
      × (argvalue (argvalue args').1 ≡ argvalue args')
unfolding values_loop argnextvalue argnext argvalue
values_loop-values_of fuel c args args' e h =
    let (s, cur, av) = argnext-InFlag c args args' e in
    let same : record { rest = args'.rest; curarg = some s; argvalue = none } ≡ args' =
      ap₂ (λ u v. record { rest = args'.rest; curarg = u; argvalue = v }) (sym cur) (sym av) in
    let (all, first, again) = subst (λ a. Values fuel s a) same (values_lem fuel s args'.rest h) in
    (s, cur, all, first, again)
