-- ===== src/Kern/Lock/Exclusion.antt =====
-- The lock of kern/riscv/spinlock.c excludes, and a lock that is given back is taken.
use zynex_os.Base.{
  ℕ, ◌≡◌, ◌≢◌, refl, sym, ◌∙◌, ap, subst, ◌⊎◌, inl, inr, arith, ◌==◌, Bool-cases, Bool, true, false,
}
use zynex_os.Kern.Lock.{
  outside, spinning, inside, leaving, Place, Cpus, at_place, spin_lock_round, spin_unlock, Step,
  call_lock, round, call_unlock, unlock, Reach, start, later,
}

-- Whether a CPU there has the lock.
abbrev pub has_lock : Place → Bool
has_lock inside = true
has_lock leaving = true
has_lock _ = false

-- Whoever has the lock, it is 1, and who has it is alone; when nobody has it, it is 0.
record Owned (s : Cpus) : Type 0 where
  pub taken : (c : ℕ) → has_lock (s.place c) ≡ true → s.locked ≡ 1
  pub alone : (i j : ℕ) → has_lock (s.place i) ≡ true → has_lock (s.place j) ≡ true → i ≡ j
  pub free : (s.locked ≡ 0) ⊎ ((c : ℕ) × (has_lock (s.place c) ≡ true))

at_place_self : (s : Cpus) (c : ℕ) (p : Place) → (at_place s c p).place c ≡ p
at_place_self s c p = ground arith

at_place-other : (s : Cpus) (c i : ℕ) (p : Place) → i ≢ c → (at_place s c p).place i ≡ s.place i
at_place-other s c i p ne = ground (arith, ne)

-- A CPU's move between places that are both with the lock, or both without.
Owned-move :
    (s : Cpus) (c : ℕ) (p : Place)
    → has_lock p ≡ has_lock (s.place c)
    → Owned s
    → Owned (at_place s c p)
Owned-move s c p e o = record {
  taken = λ i h. o.taken i (sym (same i) ∙ h);
  alone = λ i j h h'. o.alone i j (sym (same i) ∙ h) (sym (same j) ∙ h');
  free = elim o.free [ inl z ↦ inl z | inr (i, h) ↦ inr (i, same i ∙ h) ];
}
  where
    same : (i : ℕ) → has_lock ((at_place s c p).place i) ≡ has_lock (s.place i)
    same i = elim (Bool-cases (i == c)) [
      | inl y ↦
          ap (λ k. has_lock ((at_place s c p).place k)) (eq y)
          ∙ ap has_lock (at_place_self s c p)
          ∙ e
          ∙ ap (λ k. has_lock (s.place k)) (sym (eq y))
      | inr n ↦ ap has_lock (at_place-other s c i p (λ q. differ n q))
    ]
      where
        eq : (i == c) ≡ true → i ≡ c
        eq y = ground (arith, y)

        differ : (i == c) ≡ false → i ≡ c → ⊥
        differ n q = ground (arith, n, q)

-- With the lock free, the CPU `c` has it alone after it has moved inside.
Owned-take :
    (s : Cpus) (c : ℕ)
    → s.locked ≡ 0
    → Owned s
    → Owned (at_place (record s { locked = 1 }) c inside)
Owned-take s c z o = record {
  taken = λ i h. refl;
  alone = λ i j h h'. only i h ∙ sym (only j h');
  free = inr (c, ap has_lock (at_place_self s c inside));
}
  where
    only : (i : ℕ) → has_lock ((at_place s c inside).place i) ≡ true → i ≡ c
    only i h = ground (arith, h, o.taken i, z)

Owned-give :
    (s : Cpus) (c : ℕ)
    → has_lock (s.place c) ≡ true
    → Owned s
    → Owned (at_place (record s { locked = 0 }) c outside)
Owned-give s c h o = record {
  taken = λ i k. absurd (nobody i k);
  alone = λ i j k k'. absurd (nobody i k);
  free = inl refl;
}
  where
    nobody : (i : ℕ) → has_lock ((at_place s c outside).place i) ≡ true → ⊥
    nobody i k = ground (arith, k, o.alone i c, h)

-- Another CPU has it: a round of the loop changes nothing.
Owned-wait :
    (s : Cpus) → (c : ℕ) → has_lock (s.place c) ≡ true → Owned s → Owned (record s { locked = 1 })
Owned-wait s c h o = record { taken = λ i k. refl; alone = o.alone; free = inr (c, h) }

spin_lock_round-free :
    (s : Cpus) (c : ℕ)
    → s.locked ≡ 0
    → spin_lock_round s c ≡ at_place (record s { locked = 1 }) c inside
unfolding spin_lock_round
spin_lock_round-free s c z = ground (arith, z)

spin_lock_round-taken :
    (s : Cpus) (c : ℕ) → s.locked ≡ 1 → spin_lock_round s c ≡ record s { locked = 1 }
unfolding spin_lock_round
spin_lock_round-taken s c z = ground (arith, z)

Step-Owned : {s t : Cpus} → Step s t → Owned s → Owned t
unfolding spin_unlock
Step-Owned {s} (call_lock c e) o = Owned-move s c spinning (ap has_lock (sym e)) o
Step-Owned {s} (round c e) o = elim o.free [
  | inl z ↦ subst Owned (sym (spin_lock_round-free s c z)) (Owned-take s c z o)
  | inr (i, h) ↦ subst Owned (sym (spin_lock_round-taken s c (o.taken i h))) (Owned-wait s i h o)
]
Step-Owned {s} (call_unlock c e) o = Owned-move s c leaving (ap has_lock (sym e)) o
Step-Owned {s} (unlock c e) o = Owned-give s c (ap has_lock e) o

Reach-Owned : {s : Cpus} → Reach s → Owned s
Reach-Owned start = record {
  taken = λ c h. absurd (cc h);
  alone = λ i j h h'. absurd (cc h);
  free = inl refl;
}
Reach-Owned (later r st) = Step-Owned st (Reach-Owned r)

-- However any number of CPUs are interleaved, at most one is between the end of spin_lock and the
-- exchange of spin_unlock.
pub Reach-alone :
    {s : Cpus} (i j : ℕ)
    → Reach s
    → has_lock (s.place i) ≡ true
    → has_lock (s.place j) ≡ true
    → i ≡ j
Reach-alone i j r h h' = (Reach-Owned r).alone i j h h'

-- However the CPUs were interleaved before, nobody has the lock after the exchange of spin_unlock,
-- and the next round of any CPU in the loop of spin_lock gets it.
pub Reach-spin_lock_round :
    {s : Cpus} (c i : ℕ)
    → Reach s
    → s.place c ≡ leaving
    → s.place i ≡ spinning
    → ((j : ℕ) → has_lock ((spin_unlock s c).place j) ≡ false)
      × ((spin_lock_round (spin_unlock s c) i).place i ≡ inside)
unfolding spin_lock_round spin_unlock
Reach-spin_lock_round {s} c i r e e' = (λ j. nobody j, ground arith)
  where
    nobody : (j : ℕ) → has_lock ((spin_unlock s c).place j) ≡ false
    nobody j = elim (Bool-cases (has_lock ((spin_unlock s c).place j))) [
      | inl h ↦ absurd (omega (arith, (Reach-Owned (later r (unlock c e))).taken j h))
      | inr h ↦ h
    ]
