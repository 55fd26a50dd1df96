-- ===== src/Fs/Cache/Tests.antt =====
-- The cache of fs/bc.c on small inputs.
use zynex_os.Base.{ℕ, ◌+◌, ◌*◌, ◌/◌, ◌≡◌, refl, arith, Bool, true, false, none, some}
use zynex_os.Base.Memory.{write}
use zynex_os.Fs.Cache.{Cache, diskmap, load, store, flush_block, diskaddr, set_bit, load_block}
use zynex_os.Fs.Cache.View.{Synced}
use zynex_os.Fs.Cache.Flat.{IsLoad, IsStore, load-IsLoad, store-IsStore}
use zynex_os.Fs.Cache.Flush.{IsFlush, flush_block-IsFlush, flush_block-past}

-- Nothing is in the cache, and the chip has its own address in every byte.
abbrev cold : Cache
cold = record {
  mem = λ x. 0;
  mapped = λ p. false;
  dirty = λ p. false;
  flash = λ x. x;
  s_nblocks = none;
}

abbrev always : Cache → Bool
always c = true

abbrev no_bitmap : Cache → ℕ → Bool
no_bitmap c b = false

cold-Synced : Synced cold
cold-Synced a i m d = absurd (ground (arith, m))

-- The byte 20 of block 1
abbrev spot : ℕ
spot = diskmap + 4096 + 20

first_block : diskaddr cold 1 ≡ some (diskmap + 4096)
unfolding diskaddr
first_block = refl

no_block : diskaddr cold 0 ≡ none
unfolding diskaddr
no_block = refl

abbrev loaded : Cache
loaded = load_block cold 1

load-IsLoad_example : IsLoad cold spot (0x800000 + 4096 + 20, loaded)
unfolding load
load-IsLoad_example =
    load-IsLoad always no_bitmap cold spot (0x800000 + 4096 + 20, loaded) cold-Synced
      (omega arith, omega arith) refl

abbrev dirtied : Cache
dirtied = record loaded {
  mem = write loaded.mem spot 7;
  dirty = set_bit loaded.dirty (spot / 4096) true;
}

store-IsStore_example : IsStore cold spot 7 dirtied
unfolding store
store-IsStore_example =
    store-IsStore always no_bitmap cold dirtied spot 7 cold-Synced (omega arith, omega arith) refl

dirtied-Synced : Synced dirtied
unfolding store
dirtied-Synced =
    (store-IsStore always no_bitmap cold dirtied spot 7 cold-Synced (omega arith, omega arith)
      refl).synced

flush_block-IsFlush_example :
    (c' : Cache) × (flush_block dirtied spot ≡ some c') × IsFlush dirtied spot c'
flush_block-IsFlush_example =
    flush_block-IsFlush dirtied spot dirtied-Synced (omega arith, omega arith)

-- Block 7000 is in the cache and dirty.
abbrev too_far : Cache
too_far = record cold { mapped = λ p. true; dirty = λ p. true }

flush_block-past_example :
    flush_block too_far (diskmap + 7000 * 4096)
    ≡ some (record too_far { dirty = set_bit too_far.dirty ((diskmap + 7000 * 4096) / 4096) false })
flush_block-past_example =
    flush_block-past too_far (diskmap + 7000 * 4096) refl (omega arith) refl refl
