-- ===== src/Kern/Pages/Check.antt =====
-- user_mem_check of kern/riscv/pmap.c: which ranges of user memory it accepts.
-- Lengths stay below `2 ^ 43`, so that the loop's `int` holds the number of rounds. The page
-- directory is that of the current environment, whichever environment is asked about.
use Prim.Native.Nat.{bit_or, bit_and}
use zynex_os.Base.{
  ℕ, zero, suc, ◌+◌, ◌*◌, ◌/◌, ◌%◌, ◌^◌, ◌<◌, ◌≤◌, ◌≡◌, refl, ◌∙◌, ap, Option, none, some, arith,
  ltb, ◌==◌, if◌then◌else◌, Bool, false,
}
use zynex_os.Kern.Pages.{PageState, read_word, Lookup, unmapped, mapped, page_lookup}

-- `ULIM`
abbrev pub ulim : ℕ
ulim = 0xfffffefff0000000

-- `ROUNDUP(a, PGSIZE)`, in 64 bits
abbrev pub round_up : ℕ → ℕ
round_up a = (a + 4095) % 2 ^ 64 / 4096 * 4096

-- The range may be accessed, or the address that is stored in `user_mem_check_addr`.
pub data Checked : Type 0 where
  allowed : Checked
  fault : ℕ → Checked

-- `pte_store` after a lookup: one that finds no page leaves it.
abbrev pub stored : Lookup → Option (ℕ × ℕ) → Option (ℕ × ℕ)
stored unmapped old = old
stored (mapped pp slot) old = some slot

-- `(*pte_store & (perm | PTE_V)) <= 0`, on unsigned words
abbrev pub has_no_bit : PageState → (perm : ℕ) → ℕ × ℕ → Bool
has_no_bit s perm slot = bit_and (read_word s slot) (bit_or perm 1) == 0

-- The loop, `n` rounds from `addr` on. A panic of page_lookup is `none`.
pub check_from : ℕ → PageState → (pgdir perm addr : ℕ) → Option (ℕ × ℕ) → Option Checked
unfolding page_lookup
check_from zero s pgdir perm addr pte_store = some allowed
check_from (suc n) s pgdir perm addr pte_store = elim (page_lookup s pgdir addr) [
  | none ↦ none
  | some found ↦ elim (stored found pte_store) [
    | none ↦ some (fault addr)
    | some slot ↦
        let rest = check_from n s pgdir perm (round_up addr + 4096) (some slot) in
        if has_no_bit s perm slot then some (fault addr) else rest
  ]
]

pub user_mem_check : PageState → (pgdir va len perm : ℕ) → Option Checked
unfolding check_from
user_mem_check s pgdir va len perm =
    let run = check_from (len / 4096 + 1) s pgdir perm va none in
    if ltb ulim (round_up ((va + len) % 2 ^ 64)) then some (fault va) else run

check_from-stored :
    (n : ℕ) (s : PageState) (pgdir perm addr : ℕ) (old : Option (ℕ × ℕ)) (slot : ℕ × ℕ)
    (found : Lookup)
    → page_lookup s pgdir addr ≡ some found
    → stored found old ≡ some slot
    → has_no_bit s perm slot ≡ false
    → check_from (suc n) s pgdir perm addr old
      ≡ check_from n s pgdir perm (round_up addr + 4096) (some slot)
unfolding check_from
check_from-stored n s pgdir perm addr old slot found e e' bit =
    ap
      (λ (r : Option Lookup). elim r as (λ _. Option Checked) [
        | none ↦ none
        | some found ↦ elim (stored found old) as (λ _. Option Checked) [
          | none ↦ some (fault addr)
          | some slot ↦
              let rest = check_from n s pgdir perm (round_up addr + 4096) (some slot) in
              if has_no_bit s perm slot then some (fault addr) else rest
        ]
      ])
      e
    ∙ ap
        (λ o. elim o as (λ _. Option Checked) [
          | none ↦ some (fault addr)
          | some slot ↦
              let rest = check_from n s pgdir perm (round_up addr + 4096) (some slot) in
              if has_no_bit s perm slot then some (fault addr) else rest
        ])
        e'
    ∙ ap
        (λ b.
          if b
          then some (fault addr)
          else check_from n s pgdir perm (round_up addr + 4096) (some slot))
        bit

-- Pages that are not mapped pass, once a page has been found.
check_from-unmapped :
    (n : ℕ) (s : PageState) (pgdir perm addr : ℕ) (slot : ℕ × ℕ)
    → addr % 4096 ≡ 0
    → addr + n * 4096 ≤ ulim + 4096
    → has_no_bit s perm slot ≡ false
    → ((j : ℕ) → j < n → page_lookup s pgdir (addr + j * 4096) ≡ some unmapped)
    → check_from n s pgdir perm addr (some slot) ≡ some allowed
unfolding check_from
check_from-unmapped zero s pgdir perm addr slot al small bit none_there = refl
check_from-unmapped (suc n) s pgdir perm addr slot al small bit none_there =
    check_from-stored n s pgdir perm addr (some slot) slot unmapped
      (ap (page_lookup s pgdir) (omega arith) ∙ none_there 0 (omega arith)) refl bit
    ∙ check_from-unmapped n s pgdir perm (round_up addr + 4096) slot (omega (arith, al))
        (omega (arith, al)) bit
        (λ j lt. ap (page_lookup s pgdir) (omega (arith, al)) ∙ none_there (suc j) (omega arith))

-- When the range begins on a page that is mapped with any one of the bits of `perm` or PTE_V, ends
-- below ULIM, and not one of its other pages is mapped, user_mem_check accepts it all the same.
pub user_mem_check-unmapped :
    (s : PageState) (pgdir va len perm pp : ℕ) (slot : ℕ × ℕ)
    → va % 4096 ≡ 0
    → va + len + 4095 ≤ ulim
    → page_lookup s pgdir va ≡ some (mapped pp slot)
    → has_no_bit s perm slot ≡ false
    → ((j : ℕ) → j < len / 4096 → page_lookup s pgdir (va + 4096 + j * 4096) ≡ some unmapped)
    → user_mem_check s pgdir va len perm ≡ some allowed
unfolding user_mem_check
user_mem_check-unmapped s pgdir va len perm pp slot al fits first bit others =
    ap (λ b. if b then some (fault va) else check_from (len / 4096 + 1) s pgdir perm va none) below
    ∙ ap (λ n. check_from n s pgdir perm va none) one_more
    ∙ check_from-stored (len / 4096) s pgdir perm va none slot (mapped pp slot) first refl bit
    ∙ check_from-unmapped (len / 4096) s pgdir perm (round_up va + 4096) slot (omega (arith, al))
        (omega (arith, al)) bit
        (λ j lt. ap (page_lookup s pgdir) (omega (arith, al, fits)) ∙ others j lt)
  where
    below : ltb ulim (round_up ((va + len) % 2 ^ 64)) ≡ false
    below = ground (arith, fits)

    one_more : len / 4096 + 1 ≡ suc (len / 4096)
    one_more = omega arith
