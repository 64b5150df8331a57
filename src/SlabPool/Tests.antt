-- ===== src/SlabPool/Tests.antt =====
-- The theorems on the pool at the pool as it starts, and after one call.
use modbus_vault.Base.{◌<◌, refl, true, [], NotIn}
use modbus_vault.SlabPool.{Pool, boot, init, alloc, taken, slab_pool_size}
use modbus_vault.SlabPool.Chain.{init-boot, upfrom, alloc-some, IsFree}
use modbus_vault.SlabPool.Ownership.{Shared, start, alloc-exclusive}

abbrev started : Shared
started = record { pool = (init true boot).1; held = [] }

alloc-exclusive_example : (0 < slab_pool_size) × NotIn 0 started.held
unfolding init boot alloc
alloc-exclusive_example = alloc-exclusive 0 (start started refl) refl

-- Slab 0 is held, and the others are free.
abbrev held_pool : Pool
held_pool = taken started.pool 0

held_pool-IsFree : IsFree held_pool (upfrom 1 31)
held_pool-IsFree = (alloc-some started.pool 0 (upfrom 1 31) init-boot.1).1
