-- ===== src/SlabPool/Chain.antt =====
-- The free list of the pool: the nodes that the links run through. `alloc` takes its head, `free`
-- puts a node in front of it, `init` links all the nodes.
use modbus_vault.Base.{
  ℕ, zero, suc, ◌<◌, ◌≡◌, refl, sym, ap, subst, ◌∙◌, Bool, true, false, List, [], ◌∷◌, Option, none,
  some, arith, length, get_or, set, length-set, get_or-set_self, get_or-set_ne, get_or-set_cases,
  replicate, inl, inr, NotIn, Distinct,
}
use modbus_vault.Base.{esp_ok, esp_err_no_mem, esp_err_invalid_state}
use modbus_vault.SlabPool.{
  Pool, Slab, zero_slab, slab_pool_size, slab_pool_max_data_size, slab_at, set_slab, init, alloc,
  taken, free, boot,
}

-- The links from `head` on run through `nodes` and end in NULL.
abbrev pub IsChain : List (Option ℕ) → Option ℕ → List ℕ → Type 0
IsChain next head [] = head ≡ none
IsChain next head (i ∷ nodes) =
    (head ≡ some i) × (i < slab_pool_size) × IsChain next (get_or next i none) nodes

-- A started pool with the free nodes `nodes`, in the order in which they will be handed out.
pub record IsFree (p : Pool) (nodes : List ℕ) : Type 0 where
  pub locked : p.has_lock ≡ true
  pub initialized : p.is_initialized ≡ true
  pub all_slabs : length p.slabs ≡ slab_pool_size
  pub all_links : length p.next ≡ slab_pool_size
  pub chain : IsChain p.next p.free_list nodes
  pub distinct : Distinct nodes

-- A link that is written at a node off the chain changes nothing on it.
IsChain-set :
    (next : List (Option ℕ)) (head : Option ℕ) (nodes : List ℕ) (i : ℕ) (v : Option ℕ)
    → NotIn i nodes
    → IsChain next head nodes
    → IsChain (set next i v) head nodes
IsChain-set next head [] i v off c = c
IsChain-set next head (j ∷ nodes) i v off c = (
  c.0,
  c.1,
  rw (get_or-set_ne next i j v none off.0)
      (IsChain-set next (get_or next j none) nodes i v off.1 c.2),
)

-- With no free node `alloc` returns NULL and changes nothing. With the free nodes `i ∷ nodes` it
-- returns `i`, sets its length to 0 and leaves every other slab alone, and `nodes` are free.
pub alloc-none : (p : Pool) → IsFree p [] → alloc p ≡ (none, p)
unfolding alloc
alloc-none p v = let c = v.chain in rw (v.locked, c) refl

pub alloc-some :
    (p : Pool) (i : ℕ) (nodes : List ℕ)
    → IsFree p (i ∷ nodes)
    → (alloc p ≡ (some i, taken p i)) × IsFree (taken p i) nodes
unfolding alloc
alloc-some p i nodes v = (returned, left)
  where
    returned : alloc p ≡ (some i, taken p i)
    returned = let c = v.chain.0 in rw (v.locked, c) refl

    left : IsFree (taken p i) nodes
    left = record {
      locked = v.locked;
      initialized = v.initialized;
      all_slabs = length-set p.slabs i (record (slab_at p i) { length = 0 }) ∙ v.all_slabs;
      all_links = v.all_links;
      chain = v.chain.2;
      distinct = v.distinct.1;
    }

-- A node off the free list comes to its front when it is freed, and no slab changes.
pub free-IsFree :
    (p : Pool) (i : ℕ) (nodes : List ℕ)
    → IsFree p nodes
    → i < slab_pool_size
    → NotIn i nodes
    → IsFree (free p (some i)) (i ∷ nodes) × ((free p (some i)).slabs ≡ p.slabs)
unfolding free
free-IsFree p i nodes v h off =
    subst (λ q. IsFree q (i ∷ nodes) × (q.slabs ≡ p.slabs)) (sym stepped) (freed, refl)
  where
    stepped : free p (some i) ≡ record p { next = set p.next i p.free_list; free_list = some i }
    stepped = simp (v.initialized, v.locked)

    linked : get_or (set p.next i p.free_list) i none ≡ p.free_list
    linked = get_or-set_self p.next i p.free_list none (omega (arith, v.all_links))

    freed : IsFree (record p { next = set p.next i p.free_list; free_list = some i }) (i ∷ nodes)
    freed = record {
      locked = v.locked;
      initialized = v.initialized;
      all_slabs = v.all_slabs;
      all_links = length-set p.next i p.free_list ∙ v.all_links;
      chain = (refl, h, rw linked (IsChain-set p.next p.free_list nodes i p.free_list off v.chain));
      distinct = (off, v.distinct);
    }

-- The nodes from `idx` on, `count` of them.
abbrev pub upfrom : ℕ → ℕ → List ℕ
upfrom idx zero = []
upfrom idx (suc count) = idx ∷ upfrom (suc idx) count

abbrev pub all_nodes : List ℕ
all_nodes = upfrom 0 slab_pool_size

-- On the statics as the program starts with them, `init` frees every node, in order; without a
-- mutex it reports that there is no memory and leaves the pool unstarted.
pub init-boot :
    (init true boot).0 ≡ esp_ok
    × IsFree (init true boot).1 all_nodes
    × (init false boot ≡ (esp_err_no_mem, boot))
unfolding init boot
init-boot = (refl, started, refl)
  where
    started : IsFree (init true boot).1 all_nodes
    started = record {
      locked = refl;
      initialized = refl;
      all_slabs = refl;
      all_links = refl;
      chain = ground arith;
      distinct = omega arith;
    }

-- A started pool is not started twice: the call reports the state and changes nothing.
pub init-started :
    (created : Bool) (p : Pool) (nodes : List ℕ)
    → IsFree p nodes
    → init created p ≡ (esp_err_invalid_state, p)
unfolding init
init-started created p nodes v = rw v.initialized

-- Writing a slab does not touch the free list.
pub set_slab-IsFree :
    (p : Pool) (i : ℕ) (slab : Slab) (nodes : List ℕ)
    → IsFree p nodes
    → IsFree (set_slab p i slab) nodes
set_slab-IsFree p i slab nodes v = record {
  locked = v.locked;
  initialized = v.initialized;
  all_slabs = length-set p.slabs i slab ∙ v.all_slabs;
  all_links = v.all_links;
  chain = v.chain;
  distinct = v.distinct;
}

-- Every buffer has its 512 bytes.
abbrev pub IsRoomy : Pool → Type 0
IsRoomy p = (j : ℕ) → length ((slab_at p j).buffer) ≡ slab_pool_max_data_size

pub set_slab-IsRoomy :
    (p : Pool) (i : ℕ) (slab : Slab)
    → length slab.buffer ≡ slab_pool_max_data_size
    → IsRoomy p
    → IsRoomy (set_slab p i slab)
set_slab-IsRoomy p i slab h v j = elim (get_or-set_cases p.slabs i j slab zero_slab) [
  | inl e ↦ ap (λ (t : Slab). length t.buffer) e ∙ h
  | inr e ↦ ap (λ (t : Slab). length t.buffer) e ∙ v j
]

get_or-replicate : (n j : ℕ) (s : Slab) → get_or (replicate n s) j s ≡ s
get_or-replicate zero j s = refl
get_or-replicate (suc n) zero s = refl
get_or-replicate (suc n) (suc j) s = get_or-replicate n j s

pub init-IsRoomy : IsRoomy (init true boot).1
unfolding init boot
init-IsRoomy j =
    ap (λ (t : Slab). length t.buffer) (get_or-replicate slab_pool_size j zero_slab)
    ∙ (unfold zero_slab in refl)
