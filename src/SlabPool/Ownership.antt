-- ===== src/SlabPool/Ownership.antt =====
-- The pool and its clients: whoever allocates a slab holds it until it frees it. Every slab is
-- either free or held by one client, whatever the order of the calls; and what a double free does.
use modbus_vault.Base.{
  ℕ, ◌+◌, ◌<◌, ◌≡◌, ◌↔◌, refl, sym, ap, subst, ◌∙◌, true, List, [], ◌∷◌, ◌++◌, Option, none, some,
  arith, length, length-append, set, length-set, get_or-set_self, NotIn, NotIn-append, Distinct,
  Distinct-middle, append_assoc,
}
use modbus_vault.SlabPool.{Pool, slab_pool_size, init, alloc, free, boot}
use modbus_vault.SlabPool.Chain.{IsFree, alloc-none, alloc-some, free-IsFree, init-boot, all_nodes}

-- The pool with the slabs that its clients hold.
pub record Shared : Type 0 where
  pub pool : Pool
  pub held : List ℕ

abbrev pub hold : Option ℕ → List ℕ → List ℕ
hold none held = held
hold (some i) held = i ∷ held

-- A call of a client: any may allocate, and the holder of a slab may free it.
pub data Call (s t : Shared) : Type 0 where
  allocates : t ≡ record { pool = (alloc s.pool).1; held = hold (alloc s.pool).0 s.held } → Call s t
  frees :
      (before after : List ℕ) (i : ℕ)
      → s.held ≡ before ++ i ∷ after
      → t ≡ record { pool = free s.pool (some i); held = before ++ after }
      → Call s t

-- What the calls lead to from a pool just initialised.
pub data Reach : Shared → Type 0 where
  start : (s : Shared) → s ≡ record { pool = (init true boot).1; held = [] } → Reach s
  call : {s t : Shared} → Reach s → Call s t → Reach t

abbrev AllBelow : ℕ → List ℕ → Type 0
AllBelow n [] = Unit {0}
AllBelow n (x ∷ xs) = (x < n) × AllBelow n xs

AllBelow-append : (n : ℕ) (xs ys : List ℕ) → AllBelow n (xs ++ ys) ↔ (AllBelow n xs × AllBelow n ys)
AllBelow-append n [] ys = (λ h. (tt, h), λ h. h.1)
AllBelow-append n (x ∷ xs) ys = (
  λ h. let p = (AllBelow-append n xs ys).0 h.1 in ((h.0, p.0), p.1),
  λ h. (h.0.0, (AllBelow-append n xs ys).1 (h.0.1, h.1)),
)

node_of : Option ℕ → ℕ
node_of none = 0
node_of (some i) = i

-- Free and held slabs together are the whole pool, each once.
pub record IsPartition (s : Shared) : Type 0 where
  pub nodes : List ℕ
  pub free_nodes : IsFree s.pool nodes
  pub once : Distinct (nodes ++ s.held)
  pub in_pool : AllBelow slab_pool_size s.held
  pub total : length nodes + length s.held ≡ slab_pool_size

pub alloc-IsPartition :
    (s : Shared)
    → IsPartition s
    → IsPartition (record { pool = (alloc s.pool).1; held = hold (alloc s.pool).0 s.held })
alloc-IsPartition s v = go v.nodes v.free_nodes v.once v.total
  where
    go :
        (nodes : List ℕ)
        → IsFree s.pool nodes
        → Distinct (nodes ++ s.held)
        → length nodes + length s.held ≡ slab_pool_size
        → IsPartition (record { pool = (alloc s.pool).1; held = hold (alloc s.pool).0 s.held })
    go [] f d t =
        subst (λ r. IsPartition (record { pool = r.1; held = hold r.0 s.held }))
          (sym (alloc-none s.pool f)) v
    go (i ∷ nodes) f d t =
        subst (λ r. IsPartition (record { pool = r.1; held = hold r.0 s.held }))
          (sym (alloc-some s.pool i nodes f).0)
          (record {
            nodes = nodes;
            free_nodes = (alloc-some s.pool i nodes f).1;
            once = (Distinct-middle i nodes s.held).1 d;
            in_pool = (f.chain.1, v.in_pool);
            total = omega arith;
          })

pub free-IsPartition :
    (s : Shared) (before after : List ℕ) (i : ℕ)
    → IsPartition s
    → s.held ≡ before ++ i ∷ after
    → IsPartition (record { pool = free s.pool (some i); held = before ++ after })
free-IsPartition s before after i v e = record {
  nodes = i ∷ v.nodes;
  free_nodes = (free-IsFree s.pool i v.nodes v.free_nodes bounds.1.0 off_free).0;
  once = (rejoin (NotIn i) off, rejoin Distinct apart);
  in_pool = (AllBelow-append slab_pool_size before after).1 (bounds.0, bounds.1.1);
  total =
      omega
        (arith, v.total, ap length e, length-append before (i ∷ after), length-append before after);
}
  where
    bounds : AllBelow slab_pool_size before × AllBelow slab_pool_size (i ∷ after)
    bounds =
        (AllBelow-append slab_pool_size before (i ∷ after)).0
          (subst (AllBelow slab_pool_size) e v.in_pool)

    moved : Distinct ((v.nodes ++ before) ++ i ∷ after)
    moved =
        subst Distinct (ap (◌++◌ v.nodes) e ∙ sym (append_assoc v.nodes before (i ∷ after))) v.once

    off : NotIn i ((v.nodes ++ before) ++ after)
    off = ((Distinct-middle i (v.nodes ++ before) after).0 moved).0

    apart : Distinct ((v.nodes ++ before) ++ after)
    apart = ((Distinct-middle i (v.nodes ++ before) after).0 moved).1

    rejoin :
        (P : List ℕ → Type 0) → P ((v.nodes ++ before) ++ after) → P (v.nodes ++ (before ++ after))
    rejoin P = subst P (append_assoc v.nodes before after)

    off_free : NotIn i v.nodes
    off_free =
        ((NotIn-append i v.nodes before).0 ((NotIn-append i (v.nodes ++ before) after).0 off).0).0

Call-IsPartition : (s t : Shared) → Call s t → IsPartition s → IsPartition t
Call-IsPartition s t (allocates e) v = subst IsPartition (sym e) (alloc-IsPartition s v)
Call-IsPartition s t (frees before after i e e') v =
    subst IsPartition (sym e') (free-IsPartition s before after i v e)

pub start-IsPartition : IsPartition (record { pool = (init true boot).1; held = [] })
start-IsPartition = record {
  nodes = all_nodes;
  free_nodes = init-boot.1;
  once = omega arith;
  in_pool = tt;
  total = refl;
}

pub Reach-IsPartition : {s : Shared} → Reach s → IsPartition s
Reach-IsPartition (start s e) = subst IsPartition (sym e) start-IsPartition
Reach-IsPartition (call {s} {t} r c) = Call-IsPartition s t c (Reach-IsPartition r)

module _ {s : Shared} (v : IsPartition s) where
  alloc-taken :
      (nodes : List ℕ)
      → IsFree s.pool nodes
      → Distinct (nodes ++ s.held)
      → (i : ℕ) → (alloc s.pool).0 ≡ some i
      → (i < slab_pool_size) × NotIn i s.held
  unfolding node_of
  alloc-taken [] f d i e = absurd (ground (arith, alloc-none s.pool f, e))
  alloc-taken (j ∷ nodes) f d i e =
      let same : j ≡ i =
        ap (λ o. node_of o) (sym (ap (λ r. r.0) (alloc-some s.pool j nodes f).0) ∙ e) in
      subst (λ k. (k < slab_pool_size) × NotIn k s.held) same
        (f.chain.1, ((NotIn-append j nodes s.held).0 d.0).1)

  alloc-refused :
      (nodes : List ℕ)
      → IsFree s.pool nodes
      → length nodes + length s.held ≡ slab_pool_size
      → ((alloc s.pool).0 ≡ none) ↔ (length s.held ≡ slab_pool_size)
  alloc-refused [] f t = rw (alloc-none s.pool f) ((λ _. omega arith), (λ _. refl))
  alloc-refused (j ∷ nodes) f t =
      rw ((alloc-some s.pool j nodes f).0) ((λ e. absurd (cc)), (λ e. absurd (omega arith)))

-- After any calls of clients that free a slab only while they hold it, a slab that `slab_pool_alloc`
-- returns is a slab of the pool that no client holds.
pub alloc-exclusive :
    {s : Shared} (i : ℕ)
    → Reach s
    → (alloc s.pool).0 ≡ some i
    → (i < slab_pool_size) × NotIn i s.held
alloc-exclusive i r e = let v = Reach-IsPartition r in alloc-taken v v.nodes v.free_nodes v.once i e

-- After any calls of the clients, `slab_pool_alloc` returns NULL exactly when they hold all 32 slabs.
pub alloc-none_iff :
    {s : Shared} → Reach s → ((alloc s.pool).0 ≡ none) ↔ (length s.held ≡ slab_pool_size)
alloc-none_iff r = let v = Reach-IsPartition r in alloc-refused v v.nodes v.free_nodes v.total

-- The pool does not notice a double free: when a held slab is freed twice, the next two
-- allocations return that same slab.
pub double_free_aliases :
    (p : Pool) (i : ℕ) (nodes : List ℕ)
    → IsFree p nodes
    → i < slab_pool_size
    → NotIn i nodes
    → let q = free (free p (some i)) (some i) in
      ((alloc q).0 ≡ some i) × ((alloc (alloc q).1).0 ≡ some i)
unfolding free alloc
double_free_aliases p i nodes v h off = ground (
  arith,
  v.initialized,
  v.locked,
  v.all_links,
  length-set p.next i p.free_list,
  get_or-set_self (set p.next i p.free_list) i (some i) none,
)
