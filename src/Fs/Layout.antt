-- ===== src/Fs/Layout.antt =====
-- Files of fs/fs.c whose blocks are all there, apart from each other and from what describes them.
use zynex_os.Base.{
  ℕ, zero, suc, ◌+◌, ◌-◌, ◌<◌, ◌≤◌, ◌≡◌, ◌≢◌, refl, sym, ◌∙◌, ap, ◌⊎◌, inl, inr, Bool, true, false,
  Option, none, some, List, ◌∷◌, arith, ltb, ◌==◌, if◌then◌else◌, Bool-cases,
}
use zynex_os.Fs.{
  Disk, read, nblocks, ndirect, nindirect, is_block, direct_slot, indirect_slot, slot_at,
  file_block_walk, block, get_at, file_get_block, flush_at, flush_block, flush_blocks, file_flush,
  file_size, blocks_of,
}

-- The slot of a file's block `m`.
abbrev pub place : Disk → ℕ × ℕ → ℕ → ℕ × ℕ
place d f m = if ltb m ndirect then direct_slot f m else (read d (indirect_slot f), m - ndirect)

-- The blocks `at 0`, ..., `at (n - 1)` are the first `n` of the file `f`.
pub record IsLaid (d : Disk) (f : ℕ × ℕ) (at : ℕ → ℕ) (n : ℕ) : Type 0 where
  pub few : n ≤ nblocks d
  pub short : n ≤ ndirect + nindirect
  pub holds : (m : ℕ) → m < n → read d (place d f m) ≡ at m
  pub is : (m : ℕ) → m < n → is_block d (at m) ≡ true
  pub distinct : (m m' : ℕ) → m < n → m' < n → at m ≡ at m' → m ≡ m'
  -- None of them is the super block, the block of the `struct File` or its indirect block.
  pub not_super : (m : ℕ) → m < n → at m ≢ 1
  pub not_file : (m : ℕ) → m < n → at m ≢ f.0
  pub not_indirect : (m : ℕ) → m < n → at m ≢ read d (indirect_slot f)
  pub indirect :
      (n ≤ ndirect)
      ⊎ ((is_block d (read d (indirect_slot f)) ≡ true) × (read d (indirect_slot f) ≢ f.0))

pub file_block_walk-place :
    (d : Disk) (f : ℕ × ℕ) (at : ℕ → ℕ) (n m : ℕ) (alloc : Bool)
    → IsLaid d f at n
    → m < n
    → file_block_walk d f m alloc ≡ (slot_at (place d f m), d)
unfolding file_block_walk
file_block_walk-place d f at n m alloc laid lt = ground (arith, lt, laid.short, laid.indirect)

get_at-there :
    (d : Disk) (s : ℕ × ℕ) (b : ℕ)
    → read d s ≡ b
    → is_block d b ≡ true
    → get_at (slot_at s, d) ≡ (block b, d)
unfolding get_at
get_at-there d s b e is = ground (arith, e, is)

-- file_get_block of a block that is there answers it and changes nothing.
pub file_get_block-IsLaid :
    (d : Disk) (f : ℕ × ℕ) (at : ℕ → ℕ) (n m : ℕ)
    → IsLaid d f at n
    → m < n
    → file_get_block d f m ≡ (block (at m), d)
unfolding file_get_block
file_get_block-IsLaid d f at n m laid lt =
    in_range
    ∙ ap get_at (file_block_walk-place d f at n m true laid lt)
    ∙ get_at-there d (place d f m) (at m) (laid.holds m lt) (laid.is m lt)
  where
    in_range : file_get_block d f m ≡ get_at (file_block_walk d f m true)
    in_range = ground (arith, laid.few, lt)

-- The words outside the file's blocks, but for its size, are as before.
abbrev pub Keeps : Disk → ℕ × ℕ → (ℕ → ℕ) → ℕ → Disk → Type 0
Keeps d f at n d' =
    (b i : ℕ) → ((m : ℕ) → m < n → at m ≢ b) → (b ≢ f.0) ⊎ (i ≢ f.1 + 32) → d'.word b i ≡ d.word b i

pub IsLaid-Keeps :
    (d : Disk) (f : ℕ × ℕ) (at : ℕ → ℕ) (n : ℕ) (d' : Disk)
    → IsLaid d f at n
    → Keeps d f at n d'
    → IsLaid d' f at n
IsLaid-Keeps d f at n d' laid keeps = record {
  few = omega (arith, laid.few, size);
  short = laid.short;
  holds = λ m lt. placed m lt ∙ laid.holds m lt;
  is = λ m lt. still_block (at m) (laid.is m lt);
  distinct = laid.distinct;
  not_super = laid.not_super;
  not_file = laid.not_file;
  not_indirect = λ m lt e. laid.not_indirect m lt (e ∙ second);
  indirect = elim laid.indirect [
    | inl le ↦ inl le
    | inr (i, ne) ↦ inr (ap (is_block d') second ∙ still_block _ i, λ e. ne (sym second ∙ e))
  ];
}
  where
    size : nblocks d' ≡ nblocks d
    size = keeps 1 1 laid.not_super (inr (omega arith))

    second : read d' (indirect_slot f) ≡ read d (indirect_slot f)
    second = keeps f.0 (f.1 + 44) laid.not_file (inr (omega arith))

    still_block : (b : ℕ) → is_block d b ≡ true → is_block d' b ≡ true
    still_block b h = ground (arith, h, size)

    placed : (m : ℕ) → m < n → read d' (place d' f m) ≡ read d (place d f m)
    placed m lt = elim (Bool-cases (ltb m ndirect)) [
      | inl near ↦ direct near (keeps f.0 (f.1 + 34 + m) laid.not_file (inr (omega arith)))
      | inr far ↦
          beyond far
            (keeps (read d (indirect_slot f)) (m - ndirect) laid.not_indirect (inl (apart far)))
    ]
      where
        direct :
            ltb m ndirect ≡ true
            → d'.word f.0 (f.1 + 34 + m) ≡ d.word f.0 (f.1 + 34 + m)
            → read d' (place d' f m) ≡ read d (place d f m)
        direct near e = rw near e

        beyond :
            ltb m ndirect ≡ false
            → d'.word (read d (indirect_slot f)) (m - ndirect)
              ≡ d.word (read d (indirect_slot f)) (m - ndirect)
            → read d' (place d' f m) ≡ read d (place d f m)
        beyond far e = rw far (ap (λ b. d'.word b (m - ndirect)) second ∙ e)

        apart : ltb m ndirect ≡ false → read d (indirect_slot f) ≢ f.0
        apart far = elim laid.indirect [
          | inl le ↦ absurd (ground (arith, far, le, lt))
          | inr (i, ne) ↦ ne
        ]

-- A disk with the same words.
pub IsLaid-flushed :
    (d : Disk) (f : ℕ × ℕ) (at : ℕ → ℕ) (n : ℕ) (l : List ℕ)
    → IsLaid d f at n
    → IsLaid (record d { flushed = l }) f at n
IsLaid-flushed d f at n l laid =
    IsLaid-Keeps d f at n (record d { flushed = l }) laid (λ b i apart ne. refl)

flush_at-there :
    (d : Disk) (s : ℕ × ℕ) (b : ℕ)
    → read d s ≡ b
    → is_block d b ≡ true
    → flush_at (slot_at s, d) ≡ some (flush_block d b)
unfolding flush_at
flush_at-there d s b e is = ground (arith, e, is)

flush_blocks-IsLaid :
    (k : ℕ) (d : Disk) (f : ℕ × ℕ) (at : ℕ → ℕ) (n i : ℕ)
    → IsLaid d f at n
    → i + k ≤ n
    → (l : List ℕ) × (flush_blocks k d f i ≡ some (record d { flushed = l }))
unfolding flush_blocks
flush_blocks-IsLaid zero d f at n i laid h = (d.flushed, refl)
flush_blocks-IsLaid (suc k) d f at n i laid h =
    let d' = flush_block d (at i) in
    let (l, run) =
      flush_blocks-IsLaid k d' f at n (suc i) (IsLaid-flushed d f at n (at i ∷ d.flushed) laid)
        (omega arith) in
    (
      l,
      ap (λ r. elim r as (λ _. Option Disk) [ none ↦ none | some d1 ↦ flush_blocks k d1 f (suc i) ])
            (ap flush_at (file_block_walk-place d f at n i false laid (omega arith))
              ∙ flush_at-there d (place d f i) (at i) (laid.holds i (omega arith))
                  (laid.is i (omega arith)))
          ∙ run,
    )

-- file_flush of a file whose blocks are all there changes no word.
pub file_flush-IsLaid :
    (d : Disk) (f : ℕ × ℕ) (at : ℕ → ℕ) (n : ℕ)
    → IsLaid d f at n
    → blocks_of (file_size d f) ≤ n
    → (read d (indirect_slot f) ≡ 0) ⊎ (is_block d (read d (indirect_slot f)) ≡ true)
    → (l : List ℕ) × (file_flush d f ≡ some (record d { flushed = l }))
unfolding file_flush
file_flush-IsLaid d f at n laid h ok =
    let (l, run) =
      flush_blocks-IsLaid (blocks_of (file_size d f)) d f at n 0 laid (omega (arith, h)) in
    let (l', end) = last (record d { flushed = f.0 ∷ l }) ok in
    (
      l',
      ap
            (λ r. elim r as (λ _. Option Disk) [
              | none ↦ none
              | some d' ↦
                  let d'' = flush_block d' f.0 in
                  let b = read d'' (indirect_slot f) in
                  if b == 0
                  then some d''
                  else if is_block d'' b
                  then some (flush_block d'' b)
                  else none
            ])
            run
          ∙ end,
    )
  where
    last :
        (d'' : Disk)
        → (read d'' (indirect_slot f) ≡ 0) ⊎ (is_block d'' (read d'' (indirect_slot f)) ≡ true)
        → let b = read d'' (indirect_slot f) in
          (l : List ℕ) × ((if b == 0
              then some d''
              else if is_block d'' b
              then some (flush_block d'' b)
              else none)
            ≡ some (record d'' { flushed = l }))
    last d'' (inl z) = (d''.flushed, ground (arith, z))
    last d'' (inr y) = (read d'' (indirect_slot f) ∷ d''.flushed, ground (arith, y))
