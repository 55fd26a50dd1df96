-- ===== src/User/Fd/Io.antt =====
-- read and readn of lib/riscv/fd.c over the devices.
use zynex_os.Base.{
  ℕ, zero, suc, ◌+◌, ◌-◌, ◌^◌, ◌%◌, ◌<◌, ◌≤◌, ◌≡◌, refl, ap, ◌⊎◌, inl, inr, Option, none, some,
  List, [], ◌∷◌, ◌++◌, ◌==◌, if◌then◌else◌, arith, length, length-append,
}
use native.Mathlib.Decide.{dec_lt}
use zynex_os.User.Fd.{Space, FdError, bad_fd, fd_lookup, is_device}

-- What a read answers, with the bytes that it has put into the buffer.
pub data Read : Type 0 where
  got : List ℕ → Read
  fails : FdError → Read
  unsupported : Read

-- What readn answers: the bytes put into the buffer, whose number is its result; the negative answer
-- of a read; or nothing, where the count of a read, which is stored in an `int`, or the sum `tot`, an
-- `int` too, passes 2 ^ 31 - 1. What the source does from there on is not modelled.
pub data ReadAll : Type 0 where
  total : List ℕ → ReadAll
  failed : FdError → ReadAll
  not_supported : ReadAll
  overflows : ReadAll

abbrev pub before : List ℕ → Option (ReadAll × Space) → Option (ReadAll × Space)
before xs (some (total ys, s)) = some (total (xs ++ ys), s)
before xs r = r

-- The tests on `m`, and `tot += m` before the next round.
abbrev pub after_round :
    (tot : ℕ) → Read × Space → (Space → ℕ → Option (ReadAll × Space)) → Option (ReadAll × Space)
after_round tot (fails e, s) next = some (failed e, s)
after_round tot (unsupported, s) next = some (not_supported, s)
after_round tot (got [], s) next = some (total [], s)
after_round tot (got (x ∷ xs), s) next = elim (dec_lt (tot + length (x ∷ xs)) (2 ^ 31)) [
  | yes fits ↦ before (x ∷ xs) (next s (length (x ∷ xs)))
  | no past ↦ some (overflows, s)
]

-- `dev_read d` is `dev->dev_read` of the device `d`, on the page of the descriptor; a null pointer is
-- `none`.
module _ (dev_read : ℕ → Option (Space → (p n : ℕ) → Read × Space)) where
  unfoldable pub read : Space → (fdnum n : ℕ) → Read × Space
  unfolding fd_lookup
  read s fdnum n = elim (fd_lookup s fdnum) [
    | none ↦ (fails bad_fd, s)
    | some p ↦
        if is_device (s.fds p).dev_id
        then (if (s.fds p).omode % 4 == 1
            then (fails bad_fd, s)
            else elim (dev_read (s.fds p).dev_id) [ none ↦ (unsupported, s) | some op ↦ op s p n ])
        else (fails bad_fd, s)
  ]

  -- The loop of readn, with `left` bytes to read and `tot` read so far; its fuel is one more than
  -- `left`.
  pub readn_loop : ℕ → Space → (fdnum tot left : ℕ) → Option (ReadAll × Space)
  unfolding read
  readn_loop zero s fdnum tot left = none
  readn_loop (suc fuel) s fdnum tot zero = some (total [], s)
  readn_loop (suc fuel) s fdnum tot (suc left) =
      after_round tot (read s fdnum (suc left))
        (λ s' m. readn_loop fuel s' fdnum (tot + m) (suc left - m))

  pub readn : Space → (fdnum n : ℕ) → Option (ReadAll × Space)
  unfolding readn_loop
  readn s fdnum n = readn_loop (suc n) s fdnum 0 n

  -- Successive reads of a descriptor, each for the bytes that are still to come of the `left` at the
  -- start: the bytes that they give together, and how many are still to come after the last one. None
  -- of these reads gives nothing.
  pub data Reads (fdnum : ℕ) : Space → ℕ → List ℕ → Space → ℕ → Type 0 where
    here : (s : Space) (left : ℕ) → Reads fdnum s left [] s left
    more :
        (s t u : Space) (left rest : ℕ) (xs ys : List ℕ)
        → 0 < left
        → 0 < length xs
        → read s fdnum left ≡ (got xs, t)
        → Reads fdnum t (left - length xs) ys u rest
        → Reads fdnum s left (xs ++ ys) u rest

  -- The answer of a readn of `left` bytes after `tot` others, from the reads that it has made.
  pub data Answer (fdnum tot : ℕ) (s : Space) (left : ℕ) : Option (ReadAll × Space) → Type 0 where
    is_full :
        (ys : List ℕ) (t : Space)
        → Reads fdnum s left ys t 0
        → left ≤ length ys
        → (ys ≡ []) ⊎ (tot + length ys < 2 ^ 31)
        → Answer fdnum tot s left (some (total ys, t))
    is_dry :
        (ys : List ℕ) (t u : Space) (rest : ℕ)
        → Reads fdnum s left ys t rest
        → 0 < rest
        → length ys + rest ≡ left
        → read t fdnum rest ≡ (got [], u)
        → Answer fdnum tot s left (some (total ys, u))
    is_refused :
        (ys : List ℕ) (t u : Space) (rest : ℕ) (e : FdError)
        → Reads fdnum s left ys t rest
        → 0 < rest
        → length ys + rest ≡ left
        → read t fdnum rest ≡ (fails e, u)
        → Answer fdnum tot s left (some (failed e, u))
    is_unsupported :
        (ys : List ℕ) (t u : Space) (rest : ℕ)
        → Reads fdnum s left ys t rest
        → 0 < rest
        → length ys + rest ≡ left
        → read t fdnum rest ≡ (unsupported, u)
        → Answer fdnum tot s left (some (not_supported, u))
    is_past :
        (ys xs : List ℕ) (t u : Space) (rest : ℕ)
        → Reads fdnum s left ys t rest
        → 0 < rest
        → length ys + rest ≡ left
        → read t fdnum rest ≡ (got xs, u)
        → 2 ^ 31 ≤ tot + length ys + length xs
        → Answer fdnum tot s left (some (overflows, u))

module _ (dev_read : ℕ → Option (Space → (p n : ℕ) → Read × Space)) (fdnum : ℕ) where
  -- One more read in front.
  before-Answer :
      (tot : ℕ) (s t : Space) (left : ℕ) (xs : List ℕ) (r : Option (ReadAll × Space))
      → 0 < left
      → 0 < length xs
      → tot + length xs < 2 ^ 31
      → read dev_read s fdnum left ≡ (got xs, t)
      → Answer dev_read fdnum (tot + length xs) t (left - length xs) r
      → Answer dev_read fdnum tot s left (before xs r)
  before-Answer tot s t left xs _ lo pos fits e (is_full ys u run full small) =
      is_full (xs ++ ys) u (more s t u left 0 xs ys lo pos e run)
        (omega (arith, length-append xs ys)) (inr (below small))
    where
      below : (ys ≡ []) ⊎ (tot + length xs + length ys < 2 ^ 31) → tot + length (xs ++ ys) < 2 ^ 31
      below (inl z) =
          let no_more : length ys ≡ 0 = ap length z in omega (arith, length-append xs ys)
      below (inr less) = omega (arith, length-append xs ys)
  before-Answer tot s t left xs _ lo pos fits e (is_dry ys u v rest run more_left whole last) =
      is_dry (xs ++ ys) u v rest (more s t u left rest xs ys lo pos e run) more_left
        (omega (arith, length-append xs ys)) last
  before-Answer tot s t left xs _ lo pos fits e
        (is_refused ys u v rest w run more_left whole last) =
      is_refused (xs ++ ys) u v rest w (more s t u left rest xs ys lo pos e run) more_left
        (omega (arith, length-append xs ys)) last
  before-Answer tot s t left xs _ lo pos fits e
        (is_unsupported ys u v rest run more_left whole last) =
      is_unsupported (xs ++ ys) u v rest (more s t u left rest xs ys lo pos e run) more_left
        (omega (arith, length-append xs ys)) last
  before-Answer tot s t left xs _ lo pos fits e
        (is_past ys zs u v rest run more_left whole last past) =
      is_past (xs ++ ys) zs u v rest (more s t u left rest xs ys lo pos e run) more_left
        (omega (arith, length-append xs ys)) last (omega (arith, length-append xs ys))

  readn_loop-Answer :
      (fuel : ℕ) (s : Space) (tot left : ℕ)
      → left < fuel
      → Answer dev_read fdnum tot s left (readn_loop dev_read fuel s fdnum tot left)
  unfolding readn_loop
  readn_loop-Answer zero s tot left h = absurd (omega arith)
  readn_loop-Answer (suc fuel) s tot zero h = is_full [] s (here s 0) (omega arith) (inl refl)
  readn_loop-Answer (suc fuel) s tot (suc left) h =
      by_read (λ t tot k lt. readn_loop-Answer fuel t tot k lt) (read dev_read s fdnum (suc left))
        refl
    where
      none_yet : Reads dev_read fdnum s (suc left) [] s (suc left)
      none_yet = here s (suc left)

      by_read :
          ((t : Space) (tot k : ℕ)
            → k < fuel
            → Answer dev_read fdnum tot t k (readn_loop dev_read fuel t fdnum tot k))
          → (r : Read × Space) → read dev_read s fdnum (suc left) ≡ r
          → Answer dev_read fdnum tot s
              (suc left)
              (after_round tot r (λ t m. readn_loop dev_read fuel t fdnum (tot + m) (suc left - m)))
      by_read again (fails w, t) e =
          is_refused [] s t (suc left) w none_yet (omega arith) (omega arith) e
      by_read again (unsupported, t) e =
          is_unsupported [] s t (suc left) none_yet (omega arith) (omega arith) e
      by_read again (got [], t) e = is_dry [] s t (suc left) none_yet (omega arith) (omega arith) e
      by_read again (got (x ∷ xs), t) e =
          elim (dec_lt (tot + length (x ∷ xs)) (2 ^ 31))
            as (λ fits.
              Answer dev_read fdnum tot s (suc left) (elim fits as (λ _. Option (ReadAll × Space)) [
                | yes fits ↦ before (x ∷ xs) (
                    readn_loop dev_read fuel t fdnum (tot + length (x ∷ xs))
                      (suc left - length (x ∷ xs)))
                | no past ↦ some (overflows, t)
              ])) [
                | yes fits ↦
                    before-Answer tot s t (suc left) (x ∷ xs) _ (omega arith) (omega arith) fits e (
                      again t (tot + length (x ∷ xs)) (suc left - length (x ∷ xs))
                        (omega (arith, h)))
                | no past ↦
                    is_past [] (x ∷ xs) s t (suc left) none_yet (omega arith) (omega arith) e
                      (omega arith)
              ]

  -- Whatever the device does, readn ends: its answer is what the successive reads gave, in order, of
  -- all bytes asked for, or of fewer if the last read gave none; or the last read's error, and the
  -- bytes before it are lost; or `overflows`, only if the counts of the reads add up to 2 ^ 31 or more.
  pub readn-Answer : (s : Space) (n : ℕ) → Answer dev_read fdnum 0 s n (readn dev_read s fdnum n)
  unfolding readn
  readn-Answer s n = readn_loop-Answer (suc n) s 0 n (omega arith)
