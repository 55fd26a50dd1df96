-- ===== src/Fs/Cache/Flat.antt =====
-- Loads, stores and flushes through the cache of fs/bc.c, on the flat disk that the server sees.
use zynex_os.Base.{
  ℕ, ◌+◌, ◌-◌, ◌/◌, ◌≡◌, ◌≢◌, inl, inr, refl, sym, ◌∙◌, ap, subst, Bool, true, false, not, ◌||◌,
  Option, none, some, arith, ◌==◌, if◌then◌else◌, Bool-cases, Option-cases,
}
use zynex_os.Base.Memory.{write}
use zynex_os.Fs.Cache.{
  Cache, set_bit, diskmap, past_super, in_cache, load_block, bc_pgfault, load, store,
}
use zynex_os.Fs.Cache.View.{
  offset_of, InChip, contents, Synced, set_bit_self, set_bit_ne, load_block-Loaded, Loaded-Synced,
  Loaded-contents,
}

-- `c'` shows the same flat disk as `c`, with the byte at `addr` of it in memory.
pub record Faulted (addr : ℕ) (c c' : Cache) : Type 0 where
  pub mapped : c'.mapped (addr / 4096) ≡ true
  pub synced : Synced c'
  pub same : (a : ℕ) → contents c' a ≡ contents c a

some_inj {ℓ} : {A : Type ℓ} {x y : A} → some x ≡ some y → x ≡ y
some_inj {x = x} e = ap (λ o. elim o [ none ↦ x | some z ↦ z ]) e

none-some {ℓ} : {A : Type ℓ} {x : A} → none ≡ some x → ⊥
none-some {A = A} e = subst (λ (o : Option A). elim o [ none ↦ Unit {0} | some z ↦ ⊥ ]) e tt

some_else : (b : Bool) (x y : Cache) → (if b then none else some x) ≡ some y → x ≡ y
some_else true x y e = absurd (none-some e)
some_else false x y e = some_inj e

-- What a load gives.
pub record IsLoad (c : Cache) (addr : ℕ) (r : ℕ × Cache) : Type 0 where
  pub value : r.0 ≡ contents c addr
  pub synced : Synced r.1
  pub same : (a : ℕ) → contents r.1 a ≡ contents c a

pub record IsStore (c : Cache) (addr v : ℕ) (c' : Cache) : Type 0 where
  pub synced : Synced c'
  pub updated : (a : ℕ) → contents c' a ≡ (if a == addr then v else contents c a)

-- The cache after a store in a page that is mapped.
abbrev after_store : Cache → ℕ → ℕ → Cache
after_store k addr v = record k {
  mem = write k.mem addr v;
  dirty = set_bit k.dirty (addr / 4096) true;
}

after_store-contents :
    (k : Cache) (addr v a : ℕ)
    → k.mapped (addr / 4096) ≡ true
    → contents (after_store k addr v) a ≡ (if a == addr then v else contents k a)
after_store-contents k addr v a m = elim (Bool-cases (a == addr)) [
  | inl e ↦ here (ground (arith, e)) e
  | inr e ↦ rw e refl
]
  where
    here :
        a ≡ addr
        → (a == addr) ≡ true
        → contents (after_store k addr v) a ≡ (if a == addr then v else contents k a)
    here e t = rw (t, ap (λ x. k.mapped (x / 4096)) e ∙ m) refl

after_store-Synced : (k : Cache) (addr v : ℕ) → Synced k → Synced (after_store k addr v)
after_store-Synced k addr v s a i m d = elim (Bool-cases (a / 4096 == addr / 4096)) [
  | inl e ↦
      absurd
        (ground (arith, d, set_bit_self k.dirty (addr / 4096) (a / 4096) true (ground (arith, e))))
  | inr e ↦ other (ground (arith, e))
]
  where
    other : a / 4096 ≢ addr / 4096 → write k.mem addr v a ≡ k.flash (offset_of a)
    other ne =
        away (ground (arith, ne))
        ∙ s a i m (sym (set_bit_ne k.dirty (addr / 4096) (a / 4096) true ne) ∙ d)
      where
        away : (a == addr) ≡ false → write k.mem addr v a ≡ k.mem a
        away e = rw e refl

module _ (grants : Cache → Bool) (is_free : Cache → ℕ → Bool) where
  bc_pgfault-Faulted :
      (c c' : Cache) (addr : ℕ)
      → Synced c
      → InChip addr
      → c.mapped (addr / 4096) ≡ false
      → bc_pgfault grants is_free c addr ≡ some c'
      → Faulted addr c c'
  unfolding bc_pgfault
  bc_pgfault-Faulted c c' addr s i un run =
      let b = (addr - diskmap) / 4096 in
      let l = load_block-Loaded c b (omega (arith, i)) in
      let page : addr / 4096 ≡ 65536 + b = omega (arith, i) in
      subst (Faulted addr c)
        (some_else
          (not (in_cache addr) || past_super c b || not (grants c) || is_free (load_block c b) b)
          (load_block c b) c' run)
        (record {
          mapped =
              ap (λ f. f (addr / 4096)) l.mapped
              ∙ set_bit_self c.mapped (65536 + b) (addr / 4096) true page;
          synced = Loaded-Synced (65536 + b) c (load_block c b) l s;
          same = Loaded-contents (65536 + b) c (load_block c b) l (ap c.mapped (sym page) ∙ un);
        })

  load_hit :
      (c : Cache) (addr : ℕ)
      → c.mapped (addr / 4096) ≡ true
      → load grants is_free c addr ≡ some (c.mem addr, c)
  unfolding load
  load_hit c addr m = rw m refl

  load_fault :
      (c c' : Cache) (addr : ℕ)
      → c.mapped (addr / 4096) ≡ false
      → bc_pgfault grants is_free c addr ≡ some c'
      → load grants is_free c addr ≡ some (c'.mem addr, c')
  unfolding load
  load_fault c c' addr m e = rw (m, e) refl

  load_panic :
      (c : Cache) (addr : ℕ)
      → c.mapped (addr / 4096) ≡ false
      → bc_pgfault grants is_free c addr ≡ none
      → load grants is_free c addr ≡ none
  unfolding load
  load_panic c addr m e = rw (m, e) refl

  -- A load from an address of the disk that does not panic, whether the block is in the cache or comes from
  -- the chip: the value is the byte of the flat disk, the flat disk stays as it is, and blocks that are
  -- not dirty are as on the chip.
  pub load-IsLoad :
      (c : Cache) (addr : ℕ) (r : ℕ × Cache)
      → Synced c
      → InChip addr
      → load grants is_free c addr ≡ some r
      → IsLoad c addr r
  load-IsLoad c addr r s i run = elim (Bool-cases (c.mapped (addr / 4096))) [
    | inl m ↦ subst (IsLoad c addr) (some_inj (sym (load_hit c addr m) ∙ run)) (record {
      value = sym (ap (λ b. if b then c.mem addr else c.flash (offset_of addr)) m);
      synced = s;
      same = λ a. refl;
    })
    | inr un ↦ elim (Option-cases (bc_pgfault grants is_free c addr)) [
      | inl e ↦ absurd (none-some (sym (load_panic c addr un e) ∙ run))
      | inr f ↦
          let g = bc_pgfault-Faulted c f.0 addr s i un f.1 in
          subst (IsLoad c addr) (some_inj (sym (load_fault c f.0 addr un f.1) ∙ run)) (record {
            value =
                sym (ap (λ b. if b then f.0.mem addr else f.0.flash (offset_of addr)) g.mapped)
                ∙ g.same addr;
            synced = g.synced;
            same = g.same;
          })
    ]
  ]

  store_hit :
      (c : Cache) (addr v : ℕ)
      → c.mapped (addr / 4096) ≡ true
      → store grants is_free c addr v ≡ some (after_store c addr v)
  unfolding store
  store_hit c addr v m = rw m refl

  store_fault :
      (c c' : Cache) (addr v : ℕ)
      → c.mapped (addr / 4096) ≡ false
      → bc_pgfault grants is_free c addr ≡ some c'
      → store grants is_free c addr v ≡ some (after_store c' addr v)
  unfolding store
  store_fault c c' addr v m e = rw (m, e) refl

  store_panic :
      (c : Cache) (addr v : ℕ)
      → c.mapped (addr / 4096) ≡ false
      → bc_pgfault grants is_free c addr ≡ none
      → store grants is_free c addr v ≡ none
  unfolding store
  store_panic c addr v m e = rw (m, e) refl

  -- A store to an address of the disk that does not panic: the flat disk has the new byte there and no other
  -- change, and blocks that are not dirty are as on the chip.
  pub store-IsStore :
      (c c' : Cache) (addr v : ℕ)
      → Synced c
      → InChip addr
      → store grants is_free c addr v ≡ some c'
      → IsStore c addr v c'
  store-IsStore c c' addr v s i run = elim (Bool-cases (c.mapped (addr / 4096))) [
    | inl m ↦ subst (IsStore c addr v) (some_inj (sym (store_hit c addr v m) ∙ run)) (record {
      synced = after_store-Synced c addr v s;
      updated = λ a. after_store-contents c addr v a m;
    })
    | inr un ↦ elim (Option-cases (bc_pgfault grants is_free c addr)) [
      | inl e ↦ absurd (none-some (sym (store_panic c addr v un e) ∙ run))
      | inr f ↦
          let g = bc_pgfault-Faulted c f.0 addr s i un f.1 in
          subst (IsStore c addr v) (some_inj (sym (store_fault c f.0 addr v un f.1) ∙ run))
            (record {
              synced = after_store-Synced f.0 addr v g.synced;
              updated = λ a.
                  after_store-contents f.0 addr v a g.mapped
                  ∙ ap (λ x. if a == addr then v else x) (g.same a);
            })
    ]
  ]
