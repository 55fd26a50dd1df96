-- ===== src/User/Malloc/Tests.antt =====
-- malloc and free of lib/riscv/malloc.c on small inputs.
use zynex_os.Base.{
  ℕ, ◌+◌, ◌-◌, ◌*◌, ◌≡◌, refl, arith, Bool, true, false, ◌||◌, leb, ◌==◌, if◌then◌else◌,
}
use zynex_os.User.Malloc.{
  Heap, mbegin, mend, isfree, Malloc, returned, asserts, searching, malloc_fresh, malloc,
}
use zynex_os.User.Malloc.Space.{isfree-last}
use zynex_os.User.Malloc.Fresh.{Answer, malloc_fresh-Answer, Returned, free-malloc_fresh}
use zynex_os.User.Malloc.Page.{malloc-searching}

-- Nothing is mapped.
abbrev empty : Heap
empty = record { mptr = mbegin; mapped = λ q. false; continued = λ q. false; ref = λ q. 0 }

-- Only the first page is mapped.
abbrev one_page : Heap
one_page = record empty { mapped = λ q. q == 32768 }

abbrev always : Heap → ℕ → Bool
always h q = true

abbrev never : Heap → ℕ → Bool
never h q = false

abbrev answer : Malloc → ℕ
answer (returned v h) = v
answer asserts = 1
answer searching = 2

abbrev after : Malloc → Heap → Heap
after (returned v h) k = h
after asserts k = k
after searching k = k

first_chunk : answer (malloc 10 always empty 100) ≡ mbegin
unfolding malloc
first_chunk = refl

second_chunk : answer (malloc 10 always (after (malloc 10 always empty 100) empty) 8) ≡ mbegin + 104
unfolding malloc
second_chunk = refl

no_memory : answer (malloc 10 never empty 5000) ≡ 0
unfolding malloc
no_memory = refl

-- The chunk of two pages is placed over the page that is in use.
over_used_page : answer (malloc 10 always one_page 5000) ≡ mbegin
unfolding malloc
over_used_page = refl

isfree-last_example :
    isfree one_page (32768 * 4096) 5000
    ≡ (if leb mend ((32768 + 2) * 4096) || one_page.mapped (32768 + 2 - 1) then false else true)
isfree-last_example =
    isfree-last one_page 32768 5000 2 (omega arith, omega arith, omega arith) (omega arith)

malloc_fresh-Answer_example : Answer 5000 empty (malloc_fresh 98304 always empty 5000)
malloc_fresh-Answer_example =
    malloc_fresh-Answer always empty 5000 32768 refl (omega arith) (omega arith)

abbrev served : Heap
served = after (malloc_fresh 98304 always empty 5000) empty

served_at : malloc_fresh 98304 always empty 5000 ≡ returned (32768 * 4096) served
unfolding malloc_fresh
served_at = refl

free-malloc_fresh_example : Returned empty 5000 (32768 * 4096) served
free-malloc_fresh_example =
    free-malloc_fresh always empty 5000 32768 (32768 * 4096) served refl (omega arith) (omega arith)
      served_at (omega arith)

-- `mptr` is in the last page.
abbrev at_end : Heap
at_end = record {
  mptr = 65535 * 4096 + 8;
  mapped = λ q. q == 65535;
  continued = λ q. false;
  ref = λ q. 2;
}

malloc-searching_example : malloc 7 always at_end 4088 ≡ searching
malloc-searching_example =
    malloc-searching 7 always at_end 4088 (omega arith) (omega arith) (omega arith) (omega arith)
      refl
