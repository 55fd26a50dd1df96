-- ===== src/Fs/Path/Words.antt =====
-- walk_path of fs/fs.c: a path is its components, however many slashes stand between them.
use zynex_os.Base.{
  ℕ, zero, suc, ◌<◌, ◌≤◌, ◌≡◌, refl, sym, ◌∙◌, ap, subst, ◌⊎◌, inl, inr, Bool, true, false, Option,
  none, some, List, [], ◌∷◌, ◌++◌, arith, leb, ◌==◌, if◌then◌else◌, length, Bool-cases,
}
use mathlib.Core.List.{append_assoc, append-nil}
use zynex_os.Fs.{Disk, not_found}
use zynex_os.Fs.Path.{
  slash, maxnamelen, root, is_dir, Error, of_walk, bad_path, FoundFile, file, error, dir_lookup,
  skip_slash, component, Walked, walk_fails, lookup_failed, walk_loop, walk_path,
}

abbrev before : List ℕ → List (List ℕ) → List (List ℕ)
before [] rest = rest
before (c ∷ name) rest = (c ∷ name) ∷ rest

-- The components of a path: what stands between slashes, where anything does.
unfoldable pub words_from : List ℕ → List ℕ → List (List ℕ)
words_from name [] = before name []
words_from name (c ∷ p) =
    let rest = words_from [] p in
    let longer = words_from (name ++ c ∷ []) p in if c == slash then before name rest else longer

abbrev pub words : List ℕ → List (List ℕ)
words p = words_from [] p

-- The walk along a list of components, from the file `f` in the directory `dir`.
unfoldable pub resolve : Disk → (f : ℕ × ℕ) → (dir : Option (ℕ × ℕ)) → List (List ℕ) → Walked
unfolding dir_lookup
resolve d f dir [] = record { found = file f; pdir = dir; lastelem = []; disk = d }
resolve d f dir (name ∷ names) =
    let (found, d') = dir_lookup d f name in
    elim (leb maxnamelen (length name)) [
      | true ↦ walk_fails bad_path d
      | false ↦ elim (is_dir d f) [
        | false ↦ walk_fails (of_walk not_found) d
        | true ↦ elim found [
          | error e ↦ lookup_failed f name names e d'
          | file f' ↦ resolve d' f' (some f) names
        ]
      ]
    ]

words-slash : (p : List ℕ) → words (slash ∷ p) ≡ words p
unfolding words_from
words-slash p = refl

words-skip_slash : (p : List ℕ) → words (skip_slash p) ≡ words p
unfolding words_from skip_slash
words-skip_slash [] = refl
words-skip_slash (c ∷ p) = skipped (words-skip_slash p) (Bool-cases (c == slash))
  where
    skipped :
        words (skip_slash p) ≡ words p
        → ((c == slash) ≡ true) ⊎ ((c == slash) ≡ false)
        → words (skip_slash (c ∷ p)) ≡ words (c ∷ p)
    skipped same (inl e) = ground (arith, e, same)
    skipped same (inr e) = ground (arith, e)

component-other :
    (c : ℕ) (p : List ℕ)
    → (c == slash) ≡ false
    → component (c ∷ p) ≡ (c ∷ (component p).0, (component p).1)
unfolding component
component-other c p e =
    ap (λ b. if b then ([], c ∷ p) else (c ∷ (component p).0, (component p).1)) e

words_from-other :
    (name : List ℕ) (c : ℕ) (p : List ℕ)
    → (c == slash) ≡ false
    → words_from name (c ∷ p) ≡ words_from (name ++ c ∷ []) p
unfolding words_from
words_from-other name c p e =
    ap (λ b. if b then before name (words_from [] p) else words_from (name ++ c ∷ []) p) e

is_slash : (c : ℕ) → (c == slash) ≡ true → slash ≡ c
is_slash c e = ground (arith, e)

-- A path goes on with the rest of a component.
words_from-component :
    (name p : List ℕ) → words_from name p ≡ before (name ++ (component p).0) (words (component p).1)
unfolding words_from component
words_from-component name [] = ap (λ n. before n []) (sym (append-nil name))
words_from-component name (c ∷ p) =
    by_char (words_from-component (name ++ c ∷ []) p) (Bool-cases (c == slash))
  where
    by_char :
        words_from (name ++ c ∷ []) p
          ≡ before ((name ++ c ∷ []) ++ (component p).0) (words (component p).1)
        → ((c == slash) ≡ true) ⊎ ((c == slash) ≡ false)
        → words_from name (c ∷ p)
          ≡ before (name ++ (component (c ∷ p)).0) (words (component (c ∷ p)).1)
    by_char again (inl e) =
        subst
          (λ x.
            words_from name (x ∷ p)
            ≡ before (name ++ (component (x ∷ p)).0) (words (component (x ∷ p)).1))
          (is_slash c e) (ap (λ n. before n (words p)) (sym (append-nil name)))
    by_char again (inr e) =
        words_from-other name c p e
        ∙ again
        ∙ ap (λ n. before n (words (component p).1)) (append_assoc name (c ∷ []) (component p).0)
        ∙ ap (λ (r : List ℕ × List ℕ). before (name ++ r.0) (words r.1))
            (sym (component-other c p e))

length-skip_slash : (p : List ℕ) → length (skip_slash p) ≤ length p
unfolding skip_slash
length-skip_slash [] = omega arith
length-skip_slash (c ∷ p) = shorter (length-skip_slash p)
  where
    shorter : length (skip_slash p) ≤ length p → length (skip_slash (c ∷ p)) ≤ length (c ∷ p)
    shorter h = ground (arith, h)

length-component : (p : List ℕ) → length (component p).1 ≤ length p
unfolding component
length-component [] = omega arith
length-component (c ∷ p) = shorter (length-component p)
  where
    shorter : length (component p).1 ≤ length p → length (component (c ∷ p)).1 ≤ length (c ∷ p)
    shorter h = ground (arith, h)

skip_slash-keeps : (c : ℕ) (p : List ℕ) → (c == slash) ≡ false → skip_slash (c ∷ p) ≡ c ∷ p
unfolding skip_slash
skip_slash-keeps c p e = ap (λ b. if b then skip_slash p else c ∷ p) e

skip_slash-skips : (c : ℕ) (p : List ℕ) → (c == slash) ≡ true → skip_slash (c ∷ p) ≡ skip_slash p
unfolding skip_slash
skip_slash-skips c p e = ap (λ b. if b then skip_slash p else c ∷ p) e

skip_slash-skip_slash : (p : List ℕ) → skip_slash (skip_slash p) ≡ skip_slash p
unfolding skip_slash
skip_slash-skip_slash [] = refl
skip_slash-skip_slash (c ∷ p) = again (skip_slash-skip_slash p) (Bool-cases (c == slash))
  where
    again :
        skip_slash (skip_slash p) ≡ skip_slash p
        → ((c == slash) ≡ true) ⊎ ((c == slash) ≡ false)
        → skip_slash (skip_slash (c ∷ p)) ≡ skip_slash (c ∷ p)
    again h (inl e) =
        subst (λ x. skip_slash (skip_slash (x ∷ p)) ≡ skip_slash (x ∷ p)) (is_slash c e) h
    again h (inr e) = ap skip_slash (skip_slash-keeps c p e)

-- A path that skip_slash leaves does not begin with a slash.
not_slash : (c : ℕ) (p : List ℕ) → skip_slash (c ∷ p) ≡ c ∷ p → (c == slash) ≡ false
unfolding skip_slash
not_slash c p e = elim (Bool-cases (c == slash)) [
  | inr n ↦ n
  | inl y ↦
      absurd (omega (arith, length-skip_slash p, ap length (sym (skip_slash-skips c p y) ∙ e)))
]

-- The first component of a path that begins with one.
words-component :
    (c : ℕ) (p : List ℕ)
    → (c == slash) ≡ false
    → words (c ∷ p) ≡ (component (c ∷ p)).0 ∷ words (skip_slash (component (c ∷ p)).1)
words-component c p e =
    words_from-other [] c p e
    ∙ words_from-component (c ∷ []) p
    ∙ ap (λ r. (c ∷ (component p).0) ∷ r) (sym (words-skip_slash (component p).1))
    ∙ ap (λ (r : List ℕ × List ℕ). r.0 ∷ words (skip_slash r.1)) (sym (component-other c p e))

-- A failed lookup says the same of what is left of the path and of the components that are left.
lookup_failed-words :
    (dir : ℕ × ℕ) (name p : List ℕ) (e : Error) (d : Disk)
    → skip_slash p ≡ p
    → lookup_failed dir name p e d ≡ lookup_failed dir name (words p) e d
unfolding words_from
lookup_failed-words dir name [] e d same = refl
lookup_failed-words dir name (c ∷ p) e d same =
    ap (λ (l : List (List ℕ)). lookup_failed dir name l e d)
      (sym (words-component c p (not_slash c p same)))

-- One round of the loop and of the walk, by what they test.
walk_round :
    (fuel : ℕ) (f : ℕ × ℕ) (name p : List ℕ) (long dir : Bool) (d d' : Disk) (r : FoundFile)
    → skip_slash p ≡ p
    → ((f' : ℕ × ℕ) → walk_loop fuel d' f' (some f) p ≡ some (resolve d' f' (some f) (words p)))
    → elim long as (λ _. Option Walked) [
      | true ↦ some (walk_fails bad_path d)
      | false ↦ elim dir as (λ _. Option Walked) [
        | false ↦ some (walk_fails (of_walk not_found) d)
        | true ↦ elim r as (λ _. Option Walked) [
          | error e ↦ some (lookup_failed f name p e d')
          | file f' ↦ walk_loop fuel d' f' (some f) p
        ]
      ]
    ]
      ≡ some (elim long as (λ _. Walked) [
        | true ↦ walk_fails bad_path d
        | false ↦ elim dir as (λ _. Walked) [
          | false ↦ walk_fails (of_walk not_found) d
          | true ↦ elim r as (λ _. Walked) [
            | error e ↦ lookup_failed f name (words p) e d'
            | file f' ↦ resolve d' f' (some f) (words p)
          ]
        ]
      ])
walk_round fuel f name p true dir d d' r same again = refl
walk_round fuel f name p false false d d' r same again = refl
walk_round fuel f name p false true d d' (error e) same again =
    ap some (lookup_failed-words f name p e d' same)
walk_round fuel f name p false true d d' (file f') same again = again f'

left_shorter :
    (c : ℕ) (p : List ℕ)
    → (c == slash) ≡ false
    → length (skip_slash (component (c ∷ p)).1) ≤ length p
left_shorter c p e = omega (
  arith,
  length-skip_slash (component (c ∷ p)).1,
  length-component p,
  ap (λ (r : List ℕ × List ℕ). length r.1) (component-other c p e),
)

walk_loop-resolve :
    (fuel : ℕ) (d : Disk) (f : ℕ × ℕ) (dir : Option (ℕ × ℕ)) (p : List ℕ)
    → length p < fuel
    → skip_slash p ≡ p
    → walk_loop fuel d f dir p ≡ some (resolve d f dir (words p))
unfolding walk_loop resolve words_from
walk_loop-resolve zero d f dir p h same = absurd (omega arith)
walk_loop-resolve (suc fuel) d f dir [] h same = refl
walk_loop-resolve (suc fuel) d f dir (c ∷ p) h same =
    let (name, after) = component (c ∷ p) in
    let (found, d') = dir_lookup d f name in
    walk_round fuel f name (skip_slash after) (leb maxnamelen (length name)) (is_dir d f) d d' found
      (skip_slash-skip_slash after)
      (λ f'.
        walk_loop-resolve fuel d' f' (some f) (skip_slash after)
          (omega (arith, left_shorter c p (not_slash c p same))) (skip_slash-skip_slash after))
    ∙ ap (λ ws. some (resolve d f dir ws)) (sym (words-component c p (not_slash c p same)))

-- walk_path always ends, and gives what the walk along the components of the path gives: empty
-- components, and slashes at either end, make no difference.
pub walk_path-resolve :
    (d : Disk) (path : List ℕ) → walk_path d path ≡ some (resolve d root none (words path))
unfolding walk_path
walk_path-resolve d path =
    walk_loop-resolve (suc (length (skip_slash path))) d root none (skip_slash path) (omega arith)
      (skip_slash-skip_slash path)
    ∙ ap (λ ws. some (resolve d root none ws)) (words-skip_slash path)
