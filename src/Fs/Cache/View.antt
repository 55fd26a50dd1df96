-- ===== src/Fs/Cache/View.antt =====
-- The cache of fs/bc.c as one flat disk.
use zynex_os.Base.{
  ℕ, ◌+◌, ◌-◌, ◌*◌, ◌/◌, ◌≤◌, ◌<◌, ◌≡◌, ◌≢◌, ◌⊎◌, inl, inr, refl, sym, ◌∙◌, ap, ap₂, Bool, true,
  false, arith, ◌==◌, if◌then◌else◌, Bool-cases,
}
use zynex_os.Base.Memory.{Mem}
use zynex_os.Fs.Cache.{Cache, set_bit, diskmap, fs_nor_offset, copy_bytes, load_block}
use zynex_os.Fs.Cache.Sectors.{copy_bytes-inside, copy_bytes-outside, cfi_flash_read-copy_bytes}

-- The address on the chip of a byte of the disk.
abbrev pub offset_of : ℕ → ℕ
offset_of a = fs_nor_offset + (a - diskmap)

-- The addresses of the 6144 blocks that the chip has room for.
abbrev pub InChip : ℕ → Type 0
InChip a = (diskmap ≤ a) × (a < diskmap + 6144 * 4096)

-- The byte of the disk that the server sees at an address.
abbrev pub contents : Cache → ℕ → ℕ
contents c a = if c.mapped (a / 4096) then c.mem a else c.flash (offset_of a)

-- A block that is in the cache and not dirty is as it is on the chip.
abbrev pub Synced : Cache → Type 0
Synced c =
    (a : ℕ)
    → InChip a
    → c.mapped (a / 4096) ≡ true
    → c.dirty (a / 4096) ≡ false
    → c.mem a ≡ c.flash (offset_of a)

pub set_bit_self : (f : ℕ → Bool) (p q : ℕ) (v : Bool) → q ≡ p → set_bit f p v q ≡ v
set_bit_self f p q v e = rw here refl
  where
    here : (q == p) ≡ true
    here = ground (arith, e)

pub set_bit_ne : (f : ℕ → Bool) (p q : ℕ) (v : Bool) → q ≢ p → set_bit f p v q ≡ f q
set_bit_ne f p q v ne = rw other refl
  where
    other : (q == p) ≡ false
    other = ground (arith, ne)

-- What bc_pgfault leaves, with the page `p` of a block.
pub record Loaded (p : ℕ) (c c' : Cache) : Type 0 where
  pub inside : (a : ℕ) → a / 4096 ≡ p → c'.mem a ≡ c.flash (offset_of a)
  pub outside : (a : ℕ) → a / 4096 ≢ p → c'.mem a ≡ c.mem a
  pub mapped : c'.mapped ≡ set_bit c.mapped p true
  pub dirty : c'.dirty ≡ set_bit c.dirty p false
  pub flash : c'.flash ≡ c.flash

pub load_block-Loaded : (c : Cache) (b : ℕ) → b < 6144 → Loaded (65536 + b) c (load_block c b)
load_block-Loaded c b lt = record {
  inside = λ a e.
      cfi_flash_read-copy_bytes 8 c.flash fresh (8 * b) va a (omega arith)
      ∙ copy_bytes-inside fresh va c.flash (fs_nor_offset + 8 * b * 512) (8 * 512) a (omega arith)
          (omega arith)
      ∙ ap c.flash (omega arith);
  outside = λ a e.
      cfi_flash_read-copy_bytes 8 c.flash fresh (8 * b) va a (omega arith)
      ∙ copy_bytes-outside fresh va c.flash (fs_nor_offset + 8 * b * 512) (8 * 512) a (beyond a e)
      ∙ copy_bytes-outside c.mem va (λ x. 0) 0 4096 a (beyond a e);
  mapped = ap (λ p. set_bit c.mapped p true) page;
  dirty = ap (λ p. set_bit c.dirty p false) page;
  flash = refl;
}
  where
    va : ℕ
    va = diskmap + b * 4096

    fresh : Mem
    fresh = copy_bytes c.mem (diskmap + b * 4096) (λ x. 0) 0 4096

    page : (diskmap + b * 4096) / 4096 ≡ 65536 + b
    page = omega arith

    beyond :
        (a : ℕ) → a / 4096 ≢ 65536 + b → (a < diskmap + b * 4096) ⊎ (diskmap + b * 4096 + 4096 ≤ a)
    beyond a e = ground (arith, e)

pub Loaded-Synced : (p : ℕ) (c c' : Cache) → Loaded p c c' → Synced c → Synced c'
Loaded-Synced p c c' l s a i m d = elim (Bool-cases (a / 4096 == p)) [
  | inl e ↦ l.inside a (ground (arith, e)) ∙ ap (λ f. f (offset_of a)) (sym l.flash)
  | inr e ↦
      l.outside a (ground (arith, e))
      ∙ s a i
          (sym (set_bit_ne c.mapped p (a / 4096) true (ground (arith, e)))
            ∙ ap (λ f. f (a / 4096)) (sym l.mapped)
            ∙ m)
          (sym (set_bit_ne c.dirty p (a / 4096) false (ground (arith, e)))
            ∙ ap (λ f. f (a / 4096)) (sym l.dirty)
            ∙ d)
      ∙ ap (λ f. f (offset_of a)) (sym l.flash)
]

pub Loaded-contents :
    (p : ℕ) (c c' : Cache)
    → Loaded p c c'
    → c.mapped p ≡ false
    → (a : ℕ) → contents c' a ≡ contents c a
Loaded-contents p c c' l un a = elim (Bool-cases (a / 4096 == p)) [
  | inl e ↦ here (ground (arith, e))
  | inr e ↦ there (ground (arith, e))
]
  where
    here : a / 4096 ≡ p → contents c' a ≡ contents c a
    here e =
        ap (λ b. if b then c'.mem a else c'.flash (offset_of a))
          (ap (λ f. f (a / 4096)) l.mapped ∙ set_bit_self c.mapped p (a / 4096) true e)
        ∙ l.inside a e
        ∙ sym (ap (λ b. if b then c.mem a else c.flash (offset_of a)) (ap c.mapped e ∙ un))

    there : a / 4096 ≢ p → contents c' a ≡ contents c a
    there ne =
        ap (λ b. if b then c'.mem a else c'.flash (offset_of a))
          (ap (λ f. f (a / 4096)) l.mapped ∙ set_bit_ne c.mapped p (a / 4096) true ne)
        ∙ ap₂ (λ x y. if c.mapped (a / 4096) then x else y) (l.outside a ne)
            (ap (λ f. f (offset_of a)) l.flash)
