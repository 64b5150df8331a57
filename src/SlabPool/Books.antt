-- ===== src/SlabPool/Books.antt =====
-- The books on a pool: how often each slab is held, in whatever order. Where the pool and the books
-- agree a slab is held once at most, and only if it is not free.
use modbus_vault.Base.{
  ℕ, ◌+◌, ◌≤◌, ◌≡◌, refl, sym, ap, subst, ◌∙◌, List, [], ◌∷◌, ◌++◌, Option, none, some, inl, inr,
  arith, if◌then◌else◌, ◌==◌, ==_ne, Bool-cases, NotIn, Distinct,
}
use modbus_vault.Base.Counts.{occurrences, occurrences-append, occurs-split}
use modbus_vault.SlabPool.{Pool, Slab, set_slab, alloc, free}
use modbus_vault.SlabPool.Chain.{set_slab-IsFree}
use modbus_vault.SlabPool.Ownership.{hold, IsPartition, alloc-IsPartition, free-IsPartition}

-- One of slab `i`, at slab `j`.
abbrev pub one : ℕ → ℕ → ℕ
one i j = if i == j then 1 else 0

pub record Books (p : Pool) (count : ℕ → ℕ) : Type 0 where
  pub held : List ℕ
  pub partition : IsPartition (record { pool = p; held = held })
  pub counts : (i : ℕ) → occurrences i held ≡ count i

pub Books-same :
    (p : Pool) (count count' : ℕ → ℕ)
    → Books p count
    → ((i : ℕ) → count i ≡ count' i)
    → Books p count'
Books-same p count count' b same = record {
  held = b.held;
  partition = b.partition;
  counts = λ i. b.counts i ∙ same i;
}

abbrev pub one_of : Option ℕ → ℕ → ℕ
one_of none j = 0
one_of (some i) j = one i j

pub occurrences-hold :
    (o : Option ℕ) (held : List ℕ) (i : ℕ)
    → occurrences i (hold o held) ≡ one_of o i + occurrences i held
occurrences-hold none held i = omega arith
occurrences-hold (some j) held i = refl

pub Books-alloc :
    (p : Pool) (count : ℕ → ℕ) (o : Option ℕ)
    → (alloc p).0 ≡ o
    → Books p count
    → Books (alloc p).1 (λ j. one_of o j + count j)
Books-alloc p count o eq b = record {
  held = hold (alloc p).0 b.held;
  partition = alloc-IsPartition (record { pool = p; held = b.held }) b.partition;
  counts = λ i.
      occurrences-hold (alloc p).0 b.held i ∙ omega (arith, b.counts i, ap (λ o. one_of o i) eq);
}

-- A slab that the books hold is freed.
pub Books-free :
    (p : Pool) (count count' : ℕ → ℕ) (i : ℕ)
    → Books p count
    → ((j : ℕ) → count j ≡ one i j + count' j)
    → Books (free p (some i)) count'
Books-free p count count' i b split =
    let (before, after, eq) = occurs-split i b.held (ground (arith, b.counts i, split i)) in
    record {
      held = before ++ after;
      partition =
          free-IsPartition (record { pool = p; held = b.held }) before after i b.partition eq;
      counts = λ j. omega (
        arith,
        b.counts j,
        split j,
        ap (occurrences j) eq,
        occurrences-append j before (i ∷ after),
        occurrences-append j before after,
      );
    }

-- What is written to a slab is not in the books.
pub Books-set_slab :
    (p : Pool) (count : ℕ → ℕ) (i : ℕ) (slab : Slab)
    → Books p count
    → Books (set_slab p i slab) count
Books-set_slab p count i slab b = record {
  held = b.held;
  partition = record {
    nodes = b.partition.nodes;
    free_nodes = set_slab-IsFree p i slab b.partition.nodes b.partition.free_nodes;
    once = b.partition.once;
    in_pool = b.partition.in_pool;
    total = b.partition.total;
  };
  counts = b.counts;
}

NotIn-occurrences : (i : ℕ) (xs : List ℕ) → NotIn i xs → occurrences i xs ≡ 0
NotIn-occurrences i [] h = refl
NotIn-occurrences i (x ∷ xs) h =
    ground (arith, ==_ne x i (λ e. h.0 (sym e)), NotIn-occurrences i xs h.1)

Distinct-occurrences : (i : ℕ) (xs : List ℕ) → Distinct xs → occurrences i xs ≤ 1
Distinct-occurrences i [] h = omega arith
Distinct-occurrences i (x ∷ xs) h = elim (Bool-cases (x == i)) [
  | inl same ↦
      let e : x ≡ i = ground (arith, same) in
      ground (arith, same, NotIn-occurrences i xs (subst (λ k. NotIn k xs) e h.0))
  | inr apart ↦ ground (arith, apart, Distinct-occurrences i xs h.1)
]

-- Free or held, a slab is so once.
pub Books-once :
    (p : Pool) (count : ℕ → ℕ) (b : Books p count) (i : ℕ)
    → occurrences i b.partition.nodes + count i ≤ 1
Books-once p count b i = omega (
  arith,
  b.counts i,
  occurrences-append i b.partition.nodes b.held,
  Distinct-occurrences i (b.partition.nodes ++ b.held) b.partition.once,
)
