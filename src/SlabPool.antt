-- ===== src/SlabPool.antt =====
-- components/slab_pool/slab_pool.c: a pool of 32 buffers on an intrusive free list. A pointer to a
-- node, or to the slab in it, is the node's index, and `none` is NULL. The mutex is taken with
-- portMAX_DELAY, so a call runs as one step; what `xSemaphoreCreateMutex` returns is an argument.
pub mod Chain
pub mod Ownership
pub mod Books
mod Tests
use modbus_vault.Base.{
  ℕ, zero, suc, ◌+◌, ◌-◌, Bool, true, false, not, ◌&&◌, ◌||◌, List, Option, none, some,
  if◌then◌else◌, get_or, set, replicate,
}
use modbus_vault.Base.{EspErr, esp_ok, esp_err_no_mem, esp_err_invalid_state}

abbrev pub slab_pool_size : ℕ
slab_pool_size = 32

abbrev pub slab_pool_max_data_size : ℕ
slab_pool_max_data_size = 512

-- `slab_pool_t`
pub record Slab : Type 0 where
  pub buffer : List ℕ
  pub length : ℕ

-- The statics of the file: `pool` as its slabs and its links, `free_list`, `pool_lock != NULL` and
-- `is_slab_pool_initialized`.
pub record Pool : Type 0 where
  pub slabs : List Slab
  pub next : List (Option ℕ)
  pub free_list : Option ℕ
  pub has_lock : Bool
  pub is_initialized : Bool

unfoldable pub zero_slab : Slab
zero_slab = record { buffer = replicate slab_pool_max_data_size 0; length = 0 }

-- The slab that a pointer shows; past the end of the pool there is none, and the zeroed slab stands
-- for it.
abbrev pub slab_at : Pool → ℕ → Slab
slab_at p i = get_or p.slabs i zero_slab

abbrev pub set_slab : Pool → ℕ → Slab → Pool
set_slab p i s = record p { slabs = set p.slabs i s }

-- `for (idx = 0; idx < (SLAB_POOL_SIZE - 1); ++idx) pool[idx].next = &pool[idx + 1U];`
unfoldable pub link_nodes : ℕ → ℕ → List (Option ℕ) → List (Option ℕ)
link_nodes zero idx next = next
link_nodes (suc rounds) idx next = link_nodes rounds (idx + 1) (set next idx (some (idx + 1)))

unfoldable pub init : Bool → Pool → EspErr × Pool
unfolding link_nodes
init mutex_created p =
    if p.is_initialized || p.has_lock
    then (esp_err_invalid_state, p)
    else if mutex_created
    then (
      esp_ok,
      record p {
        free_list = some 0;
        next = set (link_nodes (slab_pool_size - 1) 0 p.next) (slab_pool_size - 1) none;
        has_lock = true;
        is_initialized = true;
      },
    )
    else (esp_err_no_mem, p)

-- The pool after `node` has left the head of the free list, its length cleared.
abbrev pub taken : Pool → ℕ → Pool
taken p node = record p {
  free_list = get_or p.next node none;
  slabs = set p.slabs node (record (slab_at p node) { length = 0 });
}

unfoldable pub take_node : Pool → Option ℕ → Option ℕ × Pool
take_node p none = (none, p)
take_node p (some node) = (some node, taken p node)

unfoldable pub alloc : Pool → Option ℕ × Pool
unfolding take_node
alloc p = if p.has_lock then take_node p p.free_list else (none, p)

unfoldable pub free : Pool → Option ℕ → Pool
free p none = p
free p (some node) =
    if p.is_initialized && p.has_lock
    then record p { next = set p.next node p.free_list; free_list = some node }
    else p

pub deinit : Pool → Pool
deinit p = record {
  slabs = replicate slab_pool_size zero_slab;
  next = replicate slab_pool_size none;
  free_list = none;
  has_lock = false;
  is_initialized = false;
}

-- The statics as the program starts with them.
unfoldable pub boot : Pool
boot = record {
  slabs = replicate slab_pool_size zero_slab;
  next = replicate slab_pool_size none;
  free_list = none;
  has_lock = false;
  is_initialized = false;
}
