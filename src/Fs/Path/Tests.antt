-- ===== src/Fs/Path/Tests.antt =====
-- A root directory of one block of fs/fs.c, with no file yet.
use zynex_os.Base.{
  ℕ, zero, suc, ◌+◌, ◌*◌, ◌/◌, ◌%◌, ◌<◌, ◌≡◌, refl, ap, ◌∙◌, inl, false, Option, none, some, List,
  [], ◌∷◌, arith, ◌==◌, ◌&&◌, if◌then◌else◌, get_or, ◌≢◌,
}
use zynex_os.Fs.{Disk}
use zynex_os.Fs.Layout.{IsLaid}
use zynex_os.Fs.Bytes.{word_byte, get_byte}
use zynex_os.Fs.Path.{
  blkfiles, root, name_from, name_is, file, error, file_exists, dir_lookup, walk_path, file_create,
  file_open,
}
use zynex_os.Fs.Path.Words.{words_from, resolve, walk_path-resolve}
use zynex_os.Fs.Path.Lookup.{entry_at, found_at, IsFirst, dir_lookup-IsFirst}
use zynex_os.Fs.Path.Name.{IsName}
use zynex_os.Fs.Path.Create.{file_create-file_open}

abbrev small : Disk
small = record {
  word = λ b i.
      if b == 1 && i == 1
      then 40
      else if b == 1 && i == 34
      then 4096
      else if b == 1 && i == 35
      then 1
      else if b == 1 && i == 36
      then 5
      else 0;
  flushed = [];
}

abbrev at : ℕ → ℕ
at m = m + 5

small-IsLaid : IsLaid small root at 1
small-IsLaid = record {
  few = omega arith;
  short = omega arith;
  holds = λ m lt. ground (arith, lt);
  is = λ m lt. ground (arith, lt);
  distinct = λ m m' lt lt' e. omega (arith, e);
  not_super = λ m lt e. omega (arith, e);
  not_file = λ m lt e. omega (arith, e);
  not_indirect = λ m lt e. omega (arith, e);
  indirect = inl (omega arith);
}

word_byte-zero : (i : ℕ) → word_byte 0 i ≡ 0
word_byte-zero zero = refl
word_byte-zero (suc zero) = refl
word_byte-zero (suc (suc zero)) = refl
word_byte-zero (suc (suc (suc i))) = refl

blank : (b k : ℕ) → 1 < b → get_byte small b k ≡ 0
blank b k lt = ap (λ w. word_byte w (k % 4)) zeros ∙ word_byte-zero (k % 4)
  where
    zeros : small.word b (k / 4) ≡ 0
    zeros = ground (arith, lt)

-- The path name "a".
abbrev name : List ℕ
name = 97 ∷ []

name-IsName : IsName name
name-IsName = record {
  some_char = omega arith;
  fits = omega arith;
  no_nul = λ i lt. only i lt;
  no_slash = λ i lt. no_slash i lt;
  are = are;
}
  where
    only : (i : ℕ) → i < 1 → get_or name i 0 ≢ 0
    only zero lt e = omega (arith, e)
    only (suc i) lt e = absurd (omega arith)

    no_slash : (i : ℕ) → i < 1 → get_or name i 0 ≢ 47
    no_slash zero lt e = omega (arith, e)
    no_slash (suc i) lt e = absurd (omega arith)

    are : (i : ℕ) → get_or name i 0 < 256
    are zero = omega arith
    are (suc i) = omega arith

small-missing : (i : ℕ) → i < 16 → name_is name small (entry_at at i) ≡ false
unfolding name_from
small-missing i lt =
    ap (λ c. c == 97 && name_from small (at (i / blkfiles)) (suc (i % blkfiles * 64 * 4)) [])
      (blank (at (i / blkfiles)) (i % blkfiles * 64 * 4) (omega arith))

walk_path-resolve_example :
    walk_path small (47 ∷ 97 ∷ 47 ∷ 47 ∷ 98 ∷ [])
    ≡ some (resolve small root none ((97 ∷ []) ∷ (98 ∷ []) ∷ []))
unfolding words_from
walk_path-resolve_example = walk_path-resolve small (47 ∷ 97 ∷ 47 ∷ 47 ∷ 98 ∷ [])

dir_lookup-IsFirst_example :
    (k : Option ℕ) × (dir_lookup small root name ≡ (found_at at k, small))
    × IsFirst (λ i. name_is name small (entry_at at i)) 0 (1 * blkfiles) k
dir_lookup-IsFirst_example = dir_lookup-IsFirst small root at 1 name small-IsLaid refl

file_create-file_open_example :
    (f : ℕ × ℕ) × (d' : Disk) × (file_create small name ≡ some (file f, d'))
    × (file_open d' name ≡ some (file f, d'))
    × (file_create d' name ≡ some (error file_exists, d'))
file_create-file_open_example =
    file_create-file_open small at 1 0 name name-IsName small-IsLaid refl refl (inl refl)
      small-missing (omega arith) refl
