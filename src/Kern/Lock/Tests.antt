-- ===== src/Kern/Lock/Tests.antt =====
-- kern/riscv/spinlock.c with two CPUs, and kern/riscv/time.c at its last tick.
use zynex_os.Base.{ℕ, ◌≡◌, refl, false}
use zynex_os.Kern.Lock.{
  inside, leaving, spinning, Cpus, at_place, spin_initlock, spin_lock_round, spin_unlock, Reach,
  start, later, call_lock, round, call_unlock,
}
use zynex_os.Kern.Lock.Exclusion.{has_lock, Reach-alone, Reach-spin_lock_round}

-- CPU 0 has the lock, CPU 1 has tried it once, and CPU 0 is about to give it back.
abbrev both : Cpus
both =
    at_place
      (spin_lock_round (at_place (spin_lock_round (at_place spin_initlock 0 spinning) 0) 1 spinning)
        1)
      0 leaving

both-Reach : Reach both
unfolding spin_lock_round
both-Reach =
    later
      (later (later (later (later start (call_lock 0 refl)) (round 0 refl)) (call_lock 1 refl))
        (round 1 refl))
      (call_unlock 0 refl)

Reach-alone_example : ◌≡◌ {A = ℕ} 0 0
Reach-alone_example = Reach-alone {s = both} 0 0 both-Reach refl refl

Reach-spin_lock_round_example :
    ((j : ℕ) → has_lock ((spin_unlock both 0).place j) ≡ false)
    × ((spin_lock_round (spin_unlock both 0) 1).place 1 ≡ inside)
unfolding spin_lock_round
Reach-spin_lock_round_example = Reach-spin_lock_round {s = both} 0 1 both-Reach refl refl
