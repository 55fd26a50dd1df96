-- ===== src/Fs/Cache/Sectors.antt =====
-- The sector loops of fs/cfi_flash.c as one copy.
use zynex_os.Base.{
  ℕ, zero, suc, ◌+◌, ◌-◌, ◌*◌, ◌≤◌, ◌<◌, ◌≡◌, ◌⊎◌, inl, inr, refl, sym, ◌∙◌, ap, true, false, ◌&&◌,
  arith, ltb, leb, if◌then◌else◌,
}
use native.Mathlib.Decide.{dec_lt}
use zynex_os.Base.Memory.{Mem}
use zynex_os.Fs.Cache.{
  fs_nor_offset, cfiflash_capacity, copy_bytes, cfi_flash_read, cfi_flash_write,
}

pub copy_bytes-inside :
    (dst : Mem) (d : ℕ) (src : Mem) (s n x : ℕ)
    → d ≤ x
    → x < d + n
    → copy_bytes dst d src s n x ≡ src (s + (x - d))
copy_bytes-inside dst d src s n x le lt = rw here refl
  where
    here : (leb d x && ltb x (d + n)) ≡ true
    here = ground (arith, le, lt)

pub copy_bytes-outside :
    (dst : Mem) (d : ℕ) (src : Mem) (s n x : ℕ)
    → (x < d) ⊎ (d + n ≤ x)
    → copy_bytes dst d src s n x ≡ dst x
copy_bytes-outside dst d src s n x o = rw other refl
  where
    other : (leb d x && ltb x (d + n)) ≡ false
    other = ground (arith, o)

-- A copy of 512 bytes and then of `n` more is a copy of `512 + n`.
copy_bytes_twice :
    (dst : Mem) (d : ℕ) (src : Mem) (s n x : ℕ)
    → copy_bytes (copy_bytes dst d src s 512) (d + 512) src (s + 512) n x
      ≡ copy_bytes dst d src s (512 + n) x
copy_bytes_twice dst d src s n x = elim (dec_lt x d) [
  | yes lt ↦
      copy_bytes-outside (copy_bytes dst d src s 512) (d + 512) src (s + 512) n x
        (inl (omega arith))
      ∙ copy_bytes-outside dst d src s 512 x (inl lt)
      ∙ sym (copy_bytes-outside dst d src s (512 + n) x (inl lt))
  | no ge ↦ elim (dec_lt x (d + 512)) [
    | yes lt ↦
        copy_bytes-outside (copy_bytes dst d src s 512) (d + 512) src (s + 512) n x (inl lt)
        ∙ copy_bytes-inside dst d src s 512 x (omega arith) lt
        ∙ sym (copy_bytes-inside dst d src s (512 + n) x (omega arith) (omega arith))
    | no past ↦ elim (dec_lt x (d + 512 + n)) [
      | yes lt ↦
          copy_bytes-inside (copy_bytes dst d src s 512) (d + 512) src (s + 512) n x (omega arith)
            lt
          ∙ ap src (omega arith)
          ∙ sym (copy_bytes-inside dst d src s (512 + n) x (omega arith) (omega arith))
      | no out ↦
          copy_bytes-outside (copy_bytes dst d src s 512) (d + 512) src (s + 512) n x
            (inr (omega arith))
          ∙ copy_bytes-outside dst d src s 512 x (inr (omega arith))
          ∙ sym (copy_bytes-outside dst d src s (512 + n) x (inr (omega arith)))
    ]
  ]
]

-- The loop over the sectors of a read within the capacity.
pub cfi_flash_read-copy_bytes :
    (n : ℕ) (flash mem : Mem) (secno dst x : ℕ)
    → fs_nor_offset + (secno + n) * 512 ≤ cfiflash_capacity
    → cfi_flash_read n flash mem secno dst x
      ≡ copy_bytes mem dst flash (fs_nor_offset + secno * 512) (n * 512) x
unfolding cfi_flash_read
cfi_flash_read-copy_bytes zero flash mem secno dst x le =
    sym (copy_bytes-outside mem dst flash (fs_nor_offset + secno * 512) 0 x (ground arith))
cfi_flash_read-copy_bytes (suc n) flash mem secno dst x le =
    ap (λ b. cfi_flash_read n flash (if b then mem else copied) (suc secno) (dst + 512) x) fits
    ∙ cfi_flash_read-copy_bytes n flash copied (suc secno) (dst + 512) x (omega arith)
    ∙ ap (λ s. copy_bytes copied (dst + 512) flash s (n * 512) x) (omega arith)
    ∙ copy_bytes_twice mem dst flash (fs_nor_offset + secno * 512) (n * 512) x
    ∙ ap (λ k. copy_bytes mem dst flash (fs_nor_offset + secno * 512) k x) (omega arith)
  where
    copied : Mem
    copied = copy_bytes mem dst flash (fs_nor_offset + secno * 512) 512

    fits : ltb cfiflash_capacity (fs_nor_offset + secno * 512 + 512) ≡ false
    fits = ground (arith, le)

-- The loop over the sectors of a write within the capacity.
pub cfi_flash_write-copy_bytes :
    (n : ℕ) (flash mem : Mem) (secno src x : ℕ)
    → fs_nor_offset + (secno + n) * 512 ≤ cfiflash_capacity
    → cfi_flash_write n flash mem secno src x
      ≡ copy_bytes flash (fs_nor_offset + secno * 512) mem src (n * 512) x
unfolding cfi_flash_write
cfi_flash_write-copy_bytes zero flash mem secno src x le =
    sym (copy_bytes-outside flash (fs_nor_offset + secno * 512) mem src 0 x (ground arith))
cfi_flash_write-copy_bytes (suc n) flash mem secno src x le =
    ap (λ b. cfi_flash_write n (if b then flash else copied) mem (suc secno) (src + 512) x) fits
    ∙ cfi_flash_write-copy_bytes n copied mem (suc secno) (src + 512) x (omega arith)
    ∙ ap (λ d. copy_bytes copied d mem (src + 512) (n * 512) x) (omega arith)
    ∙ copy_bytes_twice flash (fs_nor_offset + secno * 512) mem src (n * 512) x
    ∙ ap (λ k. copy_bytes flash (fs_nor_offset + secno * 512) mem src k x) (omega arith)
  where
    copied : Mem
    copied = copy_bytes flash (fs_nor_offset + secno * 512) mem src 512

    fits : ltb cfiflash_capacity (fs_nor_offset + secno * 512 + 512) ≡ false
    fits = ground (arith, le)

-- A write past the capacity is lost: no byte of the chip changes.
pub cfi_flash_write_past :
    (n : ℕ) (flash mem : Mem) (secno src : ℕ)
    → cfiflash_capacity < fs_nor_offset + secno * 512 + 512
    → cfi_flash_write n flash mem secno src ≡ flash
unfolding cfi_flash_write
cfi_flash_write_past zero flash mem secno src lt = refl
cfi_flash_write_past (suc n) flash mem secno src lt =
    ap
      (λ b.
        cfi_flash_write n
          (if b then flash else copy_bytes flash (fs_nor_offset + secno * 512) mem src 512) mem
          (suc secno) (src + 512))
      past
    ∙ cfi_flash_write_past n flash mem (suc secno) (src + 512) (omega arith)
  where
    past : ltb cfiflash_capacity (fs_nor_offset + secno * 512 + 512) ≡ true
    past = ground (arith, lt)
