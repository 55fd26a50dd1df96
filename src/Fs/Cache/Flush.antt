-- ===== src/Fs/Cache/Flush.antt =====
-- flush_block of fs/bc.c: what it brings to the chip.
use zynex_os.Base.{
  ℕ, ◌+◌, ◌-◌, ◌*◌, ◌/◌, ◌≤◌, ◌<◌, ◌≡◌, ◌≢◌, ◌⊎◌, inl, inr, refl, sym, ◌∙◌, ap, Bool, true, false,
  not, ◌&&◌, none, some, arith, ◌==◌, if◌then◌else◌, Bool-cases,
}
use zynex_os.Fs.Cache.{
  Cache, set_bit, diskmap, fs_nor_offset, cfi_flash_write, in_cache, flush_block,
}
use zynex_os.Fs.Cache.Sectors.{
  copy_bytes-inside, copy_bytes-outside, cfi_flash_write-copy_bytes, cfi_flash_write_past,
}
use zynex_os.Fs.Cache.View.{offset_of, InChip, contents, Synced, set_bit_ne}

-- The cache after the block of `addr` is written to the chip.
abbrev written : Cache → ℕ → Cache
written c addr = record c {
  flash = cfi_flash_write 8 c.flash c.mem (8 * ((addr - diskmap) / 4096)) (addr / 4096 * 4096);
  dirty = set_bit c.dirty (addr / 4096) false;
}

flush_block_step :
    (c : Cache) (addr : ℕ)
    → in_cache addr ≡ true
    → flush_block c addr
      ≡ some (if c.mapped (addr / 4096) && c.dirty (addr / 4096) then written c addr else c)
unfolding flush_block
flush_block_step c addr r =
    chosen (in_cache addr) (c.mapped (addr / 4096 * 4096 / 4096))
      (c.dirty (addr / 4096 * 4096 / 4096)) (at_page (addr / 4096 * 4096 / 4096)) r
    ∙ ap (λ p. some (if c.mapped p && c.dirty p then at_page p else c)) page
  where
    at_page : ℕ → Cache
    at_page p = record c {
      flash = cfi_flash_write 8 c.flash c.mem (8 * ((addr - diskmap) / 4096)) (addr / 4096 * 4096);
      dirty = set_bit c.dirty p false;
    }

    page : addr / 4096 * 4096 / 4096 ≡ addr / 4096
    page = omega arith

    chosen :
        (a m d : Bool) (x : Cache)
        → a ≡ true
        → (if not a
            then none
            else if not m
            then some c
            else if not (m && d)
            then some c
            else some x)
          ≡ some (if m && d then x else c)
    chosen true true true x e = refl
    chosen true true false x e = refl
    chosen true false d x e = refl
    chosen false m d x e = absurd (ground (arith, e))

InChip-in_cache : (a : ℕ) → InChip a → in_cache a ≡ true
InChip-in_cache a i = ground (arith, i)

written-page :
    (c : Cache) (addr a : ℕ)
    → InChip addr
    → InChip a
    → a / 4096 ≡ addr / 4096
    → (written c addr).flash (offset_of a) ≡ c.mem a
written-page c addr a i j e =
    cfi_flash_write-copy_bytes 8 c.flash c.mem (8 * ((addr - diskmap) / 4096)) (addr / 4096 * 4096)
      (offset_of a) (omega (arith, i))
    ∙ copy_bytes-inside c.flash (fs_nor_offset + 8 * ((addr - diskmap) / 4096) * 512) c.mem
        (addr / 4096 * 4096) (8 * 512) (offset_of a) (omega (arith, i, j)) (omega (arith, i, j))
    ∙ ap c.mem (omega (arith, i, j))

written-other :
    (c : Cache) (addr a : ℕ)
    → InChip addr
    → InChip a
    → a / 4096 ≢ addr / 4096
    → (written c addr).flash (offset_of a) ≡ c.flash (offset_of a)
written-other c addr a i j ne =
    cfi_flash_write-copy_bytes 8 c.flash c.mem (8 * ((addr - diskmap) / 4096)) (addr / 4096 * 4096)
      (offset_of a) (omega (arith, i))
    ∙ copy_bytes-outside c.flash (fs_nor_offset + 8 * ((addr - diskmap) / 4096) * 512) c.mem
        (addr / 4096 * 4096) (8 * 512) (offset_of a) (beyond (ground (arith, ne)))
  where
    beyond :
        a / 4096 ≢ addr / 4096
        → (offset_of a < fs_nor_offset + 8 * ((addr - diskmap) / 4096) * 512)
          ⊎ (fs_nor_offset + 8 * ((addr - diskmap) / 4096) * 512 + 8 * 512 ≤ offset_of a)
    beyond n = ground (arith, n, i, j)

-- What a flush leaves.
pub record IsFlush (c : Cache) (addr : ℕ) (c' : Cache) : Type 0 where
  pub same : (a : ℕ) → InChip a → contents c' a ≡ contents c a
  pub synced : Synced c'
  pub durable : (a : ℕ) → InChip a → a / 4096 ≡ addr / 4096 → c'.flash (offset_of a) ≡ contents c a
  pub other :
      (a : ℕ) → InChip a → a / 4096 ≢ addr / 4096 → c'.flash (offset_of a) ≡ c.flash (offset_of a)

-- The block is not in the cache, or it is as on the chip.
clean-IsFlush :
    (c : Cache) (addr : ℕ)
    → (c.mapped (addr / 4096) && c.dirty (addr / 4096)) ≡ false
    → Synced c
    → IsFlush c addr c
clean-IsFlush c addr e s = record {
  same = λ a i. refl;
  synced = s;
  durable = λ a i p. on_chip a i p (c.mapped (a / 4096)) refl;
  other = λ a i ne. refl;
}
  where
    clean : (m d : Bool) → m ≡ true → (m && d) ≡ false → d ≡ false
    clean true d t f = f
    clean false d t f = absurd (ground (arith, t))

    on_chip :
        (a : ℕ)
        → InChip a
        → a / 4096 ≡ addr / 4096
        → (b : Bool) → c.mapped (a / 4096) ≡ b
        → c.flash (offset_of a) ≡ (if b then c.mem a else c.flash (offset_of a))
    on_chip a i p false m = refl
    on_chip a i p true m = sym (
        s a i m (
          clean (c.mapped (a / 4096)) (c.dirty (a / 4096)) m
            (ap (λ q. c.mapped q && c.dirty q) p ∙ e)))

written-IsFlush :
    (c : Cache) (addr : ℕ)
    → InChip addr
    → c.mapped (addr / 4096) ≡ true
    → Synced c
    → IsFlush c addr (written c addr)
written-IsFlush c addr i m s = record {
  same = λ a j. elim (Bool-cases (a / 4096 == addr / 4096)) [
    | inl e ↦ shown a (ground (arith, e)) ∙ sym (kept a (ground (arith, e)))
    | inr e ↦
        ap (λ x. if c.mapped (a / 4096) then c.mem a else x)
          (written-other c addr a i j (ground (arith, e)))
  ];
  synced = λ a j on clean. elim (Bool-cases (a / 4096 == addr / 4096)) [
    | inl e ↦ sym (written-page c addr a i j (ground (arith, e)))
    | inr e ↦
        s a j on
          (sym (set_bit_ne c.dirty (addr / 4096) (a / 4096) false (ground (arith, e))) ∙ clean)
        ∙ sym (written-other c addr a i j (ground (arith, e)))
  ];
  durable = λ a j p. written-page c addr a i j p ∙ sym (kept a p);
  other = λ a j ne. written-other c addr a i j ne;
}
  where
    kept : (a : ℕ) → a / 4096 ≡ addr / 4096 → contents c a ≡ c.mem a
    kept a p = ap (λ b. if b then c.mem a else c.flash (offset_of a)) (ap c.mapped p ∙ m)

    shown : (a : ℕ) → a / 4096 ≡ addr / 4096 → contents (written c addr) a ≡ c.mem a
    shown a p =
        ap (λ b. if b then c.mem a else (written c addr).flash (offset_of a)) (ap c.mapped p ∙ m)

-- flush_block at an address of the disk does not panic. The flat disk stays as it is; after it the whole
-- block of the address is on the chip as the server saw it, other blocks of the chip are not written, and
-- blocks that are not dirty are as on the chip.
pub flush_block-IsFlush :
    (c : Cache) (addr : ℕ)
    → Synced c
    → InChip addr
    → (c' : Cache) × (flush_block c addr ≡ some c') × IsFlush c addr c'
flush_block-IsFlush c addr s i = (
  if c.mapped (addr / 4096) && c.dirty (addr / 4096) then written c addr else c,
  flush_block_step c addr (InChip-in_cache addr i),
  flushed (c.mapped (addr / 4096)) (c.dirty (addr / 4096)) refl refl,
)
  where
    flushed :
        (m d : Bool)
        → c.mapped (addr / 4096) ≡ m
        → c.dirty (addr / 4096) ≡ d
        → IsFlush c addr (if m && d then written c addr else c)
    flushed true true e f = written-IsFlush c addr i e s
    flushed true false e f = clean-IsFlush c addr (rw (e, f) refl) s
    flushed false d e f = clean-IsFlush c addr (rw e refl) s

-- flush_block of a dirty block beyond the 6144 that the chip has room for reports nothing: the chip does
-- not change and the block is marked clean, so that its new contents are nowhere but in memory.
pub flush_block-past :
    (c : Cache) (addr : ℕ)
    → in_cache addr ≡ true
    → diskmap + 6144 * 4096 ≤ addr
    → c.mapped (addr / 4096) ≡ true
    → c.dirty (addr / 4096) ≡ true
    → flush_block c addr ≡ some (record c { dirty = set_bit c.dirty (addr / 4096) false })
flush_block-past c addr r le m d =
    flush_block_step c addr r
    ∙ ap (λ b. some (if b then written c addr else c)) both
    ∙ ap (λ f. some (record c { flash = f; dirty = set_bit c.dirty (addr / 4096) false }))
        (cfi_flash_write_past 8 c.flash c.mem (8 * ((addr - diskmap) / 4096)) (addr / 4096 * 4096)
          (omega arith))
  where
    both : (c.mapped (addr / 4096) && c.dirty (addr / 4096)) ≡ true
    both = rw (m, d) refl
