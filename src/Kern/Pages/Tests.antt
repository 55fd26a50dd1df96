-- ===== src/Kern/Pages/Tests.antt =====
-- The page allocator and the page tables of kern/riscv/pmap.c on a small memory.
use zynex_os.Base.{
  ◌<◌, zero, suc, ℕ, ◌+◌, ◌*◌, ◌≡◌, refl, ◌&&◌, ◌||◌, max, none, some, List, [], ◌∷◌, arith, ◌==◌,
  ◌!=◌, if◌then◌else◌,
}
use zynex_os.Kern.Pages.Check.{allowed, user_mem_check, user_mem_check-unmapped}
use zynex_os.Kern.Pages.{
  unmapped, PageState, make_entry, page_of_frame, page_init, pgdir_walk_through, pgdir_walk, mapped,
  page_lookup, page_insert, page_remove, inserted,
}
use zynex_os.Kern.Pages.FreeList.{has, IsFreeList}
use zynex_os.Kern.Pages.Init.{page_init-IsFreeList, in_range}
use zynex_os.Kern.Pages.Mapping.{Walks}
use zynex_os.Kern.Pages.Remove.{page_remove-page_insert}

abbrev blank : PageState
blank = record { link = λ _. none; ref = λ _. 0; free = none; word = λ _ _. 0; npages = 8 }

-- Pages 3 and 5 are free. The directory in frame 1 leads through the frames 2 and 3 to the table in
-- frame 4, whose entry 6 maps page 2 (referenced twice), entry 7 page 4 (once), and entry 5 nothing.
abbrev small : PageState
small = record {
  link = λ p. if p == 3 then some 5 else none;
  ref = λ p. if p == 2 then 2 else if p == 4 then 1 else 0;
  free = some 3;
  word = λ f i.
      if f == 1 && i == 0
      then 2 * 1024 + 1
      else if f == 2 && i == 0
      then 3 * 1024 + 1
      else if f == 3 && i == 0
      then 4 * 1024 + 1
      else if f == 4 && i == 6
      then make_entry 2 7
      else if f == 4 && i == 7
      then make_entry 4 7
      else 0;
  npages = 8;
}

small-IsFreeList : IsFreeList small (3 ∷ 5 ∷ [])
small-IsFreeList = record {
  chain = (refl, (refl, refl));
  distinct = (refl, (refl, tt));
  unreferenced = λ x h. ground arith;
}

small5-Walks : Walks small 1 (5 * 4096) (4, 5)
unfolding pgdir_walk_through
small5-Walks = record {
  found = refl;
  apart0 = omega arith;
  apart1 = omega arith;
  apart2 = omega arith;
}

small6-Walks : Walks small 1 (6 * 4096) (4, 6)
unfolding pgdir_walk_through
small6-Walks = record {
  found = refl;
  apart0 = omega arith;
  apart1 = omega arith;
  apart2 = omega arith;
}

small7-Walks : Walks small 1 (7 * 4096) (4, 7)
unfolding pgdir_walk_through
small7-Walks = record {
  found = refl;
  apart0 = omega arith;
  apart1 = omega arith;
  apart2 = omega arith;
}

lookup6 : page_lookup small 1 (6 * 4096) ≡ some (mapped 2 (4, 6))
unfolding page_lookup pgdir_walk pgdir_walk_through page_of_frame
lookup6 = refl

lookup7 : page_lookup small 1 (7 * 4096) ≡ some (mapped 4 (4, 7))
unfolding page_lookup pgdir_walk pgdir_walk_through page_of_frame
lookup7 = refl

page_init-IsFreeList_example :
    (xs : List ℕ) × IsFreeList (page_init 1 4 5 6 2 blank) xs
    × ((x : ℕ) → has x xs ≡ ((in_range 1 4 x && x != 2) || in_range (max 5 6) 8 x))
page_init-IsFreeList_example = page_init-IsFreeList 1 4 5 6 2 blank refl (omega arith) (omega arith)

page_remove-page_insert_example :
    (t u : PageState) × (page_insert small 1 2 (5 * 4096) 6 ≡ some (inserted, t))
    × (page_remove t 1 (5 * 4096) ≡ some u)
    × ((f i : ℕ) → u.word f i ≡ small.word f i)
    × ((q : ℕ) → u.ref q ≡ small.ref q)
page_remove-page_insert_example =
    page_remove-page_insert small 1 (5 * 4096) 2 6 (4, 5) small5-Walks refl (omega arith)
      (omega arith) (omega arith) (omega arith) (omega arith)

hole8 : (j : ℕ) → j < 1 → page_lookup small 1 (8 * 4096 + j * 4096) ≡ some unmapped
unfolding page_lookup pgdir_walk pgdir_walk_through page_of_frame
hole8 zero lt = refl
hole8 (suc j) lt = absurd (omega arith)

user_mem_check-unmapped_example : user_mem_check small 1 (7 * 4096) 4096 16 ≡ some allowed
user_mem_check-unmapped_example =
    user_mem_check-unmapped small 1 (7 * 4096) 4096 16 4 (4, 7) refl (omega arith) lookup7 refl
      hole8
