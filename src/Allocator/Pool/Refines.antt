-- ===== src/Allocator/Pool/Refines.antt =====
-- The free list implements the abstract pool.
use zzdds_examples.Base.{
  ℕ, zero, suc, ◌+◌, ◌<◌, ◌≡◌, ◌∙◌, inl, inr, ◌==◌, ◌&&◌, not, ltb, leb, if◌then◌else◌, Bool, true,
  false, none, some, List, [], ◌∷◌, Bool-cases, arith,
}
use zzdds_examples.Allocator.Pool.{
  block_size, block_count, block_align, Pool, push_blocks, static_pool_allocator_reset, pop_block,
  pool_alloc, pool_resize, pool_free,
}
use zzdds_examples.Allocator.Pool.Spec.{
  Request, alloc, resize, free, given, serve, Held, nothing_held, mark, Disciplined, Step,
  refused_size, refused_alignment, exhausted, granted, grown, not_grown, returned, returned_null,
  Fits, serve_all, after, Keeps, Run, stop, step,
}

abbrev one_if : Bool → ℕ
one_if b = if b then 1 else 0

-- How often a block is in the list.
unfoldable pub occurrences : ℕ → List ℕ → ℕ
occurrences b [] = 0
occurrences b (c ∷ blocks) = one_if (b == c) + occurrences b blocks

-- The list has every block that is not held exactly once, and nothing else.
pub record Represents (pool : Pool) (held : Held) : Type 0 where
  pub free_once :
      (b : ℕ) → occurrences b pool.free_list ≡ one_if (ltb b block_count && not (held b))
  pub in_pool : (b : ℕ) → held b ≡ true → b < block_count

occurrences-push_blocks :
    (b i count : ℕ) (blocks : List ℕ)
    → occurrences b (push_blocks i count blocks)
      ≡ occurrences b blocks + one_if (not (ltb b i) && ltb b (i + count))
unfolding occurrences push_blocks
occurrences-push_blocks b i zero blocks = ground arith
occurrences-push_blocks b i (suc count) blocks =
    occurrences-push_blocks b (suc i) count (i ∷ blocks) ∙ ground arith

pub reset-Represents : Represents static_pool_allocator_reset nothing_held
unfolding static_pool_allocator_reset occurrences
reset-Represents = record {
  free_once = λ b. occurrences-push_blocks b 0 block_count [] ∙ ground arith;
  in_pool = λ b h. absurd (ground arith);
}

-- The first block of the list is one that nobody holds, and then somebody does.
pub pop-Represents :
    (b : ℕ) (blocks : List ℕ) (held : Held)
    → Represents (record { free_list = b ∷ blocks }) held
    → (b < block_count)
      × (held b ≡ false)
      × Represents (record { free_list = blocks }) (mark b true held)
unfolding occurrences
pop-Represents b blocks held h =
    let e = h.free_once b in
    let low : b < block_count = ground arith in
    (
      low,
      ground arith,
      record {
        free_once = λ c. let e' = h.free_once c in ground arith;
        in_pool = λ c k. let old = h.in_pool c in ground arith;
      },
    )

push-Represents :
    (b : ℕ) (blocks : List ℕ) (held : Held)
    → Represents (record { free_list = blocks }) held
    → held b ≡ true
    → Represents (record { free_list = b ∷ blocks }) (mark b false held)
unfolding occurrences
push-Represents b blocks held h taken =
    let low = h.in_pool b taken in
    record {
      free_once = λ c. let e = h.free_once c in ground arith;
      in_pool = λ c k. let old = h.in_pool c in ground arith;
    }

-- Of one request: the answer is one that the abstract pool may give, and the list stands for the set
-- of blocks that are held then.
abbrev Simulated : Pool → Held → Request → Type 0
Simulated pool held r =
    let (a, pool') = serve r pool in
    Step held r a (after held r a) × Represents pool' (after held r a)

alloc-Simulated :
    (len alignment : ℕ) (pool : Pool) (held : Held)
    → Represents pool held
    → Simulated pool held (alloc len alignment)
unfolding serve pool_alloc pop_block occurrences
alloc-Simulated len alignment pool held h = elim (Bool-cases (ltb block_size len)) [
  | inl large ↦ rw large (refused_size (ground arith), h)
  | inr small ↦ elim (Bool-cases (ltb block_align alignment)) [
    | inl coarse ↦ rw (small, coarse) (refused_alignment (ground arith), h)
    | inr fine ↦ rw (small, fine) (served pool.free_list h (ground arith, ground arith))
  ]
]
  where
    served :
        (blocks : List ℕ)
        → Represents (record { free_list = blocks }) held
        → Fits len alignment
        → let (o, pool') = pop_block blocks in
          Step held (alloc len alignment) (given o) (after held (alloc len alignment) (given o))
          × Represents pool' (after held (alloc len alignment) (given o))
    served [] i fits = (exhausted fits (λ b low. let e = i.free_once b in ground arith), i)
    served (b ∷ blocks) i fits =
        let (low, unheld, i') = pop-Represents b blocks held i in (granted fits low unheld, i')

serve-Simulated :
    (r : Request) (pool : Pool) (held : Held)
    → Represents pool held
    → Disciplined held r
    → Simulated pool held r
unfolding serve pool_free pool_resize
serve-Simulated (alloc len alignment) pool held h d = alloc-Simulated len alignment pool held h
serve-Simulated (resize b new_len) pool held h d = elim (Bool-cases (leb new_len block_size)) [
  | inl fits ↦ rw fits (grown (ground arith), h)
  | inr large ↦ rw large (not_grown (ground arith), h)
]
serve-Simulated (free none) pool held h d = (returned_null, h)
serve-Simulated (free (some b)) pool held h d =
    (returned d, push-Represents b pool.free_list held h d)

run-Refines :
    (rs : List Request) (pool : Pool) (held : Held)
    → Represents pool held
    → Keeps held rs (serve_all rs pool).0
    → (held' : Held) × Run held rs (serve_all rs pool).0 held'
      × Represents (serve_all rs pool).1 held'
unfolding serve_all
run-Refines [] pool held h k = (held, stop, h)
run-Refines (r ∷ rs) pool held h k =
    let (a, pool') = serve r pool in
    let (s, i) = serve-Simulated r pool held h k.0 in
    let (held', rest, i') = run-Refines rs _ (after held r (serve r pool).0) i k.1 in
    (held', step s rest, i')

-- Whatever the threads of a process ask of a pool that has been reset, as long as they give back only
-- blocks that they hold, the answers are those of the abstract pool: a request that fits gets a block
-- that nobody holds, and is refused only when all 512 blocks are held.
pub pool_refines :
    (rs : List Request)
    → Keeps nothing_held rs (serve_all rs static_pool_allocator_reset).0
    → (held : Held) × Run nothing_held rs (serve_all rs static_pool_allocator_reset).0 held
      × Represents (serve_all rs static_pool_allocator_reset).1 held
pool_refines rs k = run-Refines rs static_pool_allocator_reset nothing_held reset-Represents k
