-- ===== src/Tests/Allocator.antt =====
-- Runs of the static pool.
use zzdds_examples.Base.{ℕ, ◌+◌, ◌*◌, ◌%◌, ◌^◌, ◌≤◌, ◌≡◌, refl, true, some, none, List, [], ◌∷◌}
use zzdds_examples.Allocator.Pool.{
  block_size, block_count, Pool, push_blocks, pop_block, static_pool_allocator_reset, pool_alloc,
  pool_resize, pool_free,
}
use zzdds_examples.Allocator.Pool.Address.{address, Apart, pool_alloc-Apart}
use zzdds_examples.Allocator.Pool.Spec.{
  Request, alloc, resize, free, Held, nothing_held, serve, serve_all, Keeps, Run,
}
use zzdds_examples.Allocator.Pool.Refines.{Represents, reset-Represents, pool_refines}

-- Two blocks, one of which is given back and handed out again.
abbrev requests : List Request
requests =
    alloc 100 8
    ∷ alloc 5000 8
    ∷ alloc 16 16
    ∷ resize 511 4096
    ∷ free (some 511)
    ∷ free none
    ∷ alloc 1 1
    ∷ []

keeps : Keeps nothing_held requests (serve_all requests static_pool_allocator_reset).0
unfolding serve_all serve static_pool_allocator_reset push_blocks pool_alloc pop_block pool_free
    pool_resize
keeps = (tt, (tt, (tt, (refl, (refl, (tt, (tt, tt)))))))

pool_refines_example :
    (held : Held) × Run nothing_held requests
      (serve_all requests static_pool_allocator_reset).0
      held
    × Represents (serve_all requests static_pool_allocator_reset).1 held
pool_refines_example = pool_refines requests keeps

-- The pool after the first allocation.
abbrev one_taken : Pool
one_taken = (pool_alloc 100 (2 ^ 3) static_pool_allocator_reset).1

first_block : pool_alloc 100 (2 ^ 3) static_pool_allocator_reset ≡ (some 511, one_taken)
unfolding static_pool_allocator_reset push_blocks pool_alloc pop_block
first_block = refl

pool_alloc-Apart_example :
    (4096 ≤ address 4096 511)
    × (address 4096 511 + 100 ≤ 4096 + block_count * block_size)
    × (address 4096 511 % 2 ^ 3 ≡ 0)
    × ((c : ℕ) → nothing_held c ≡ true → Apart (address 4096 511) 100 (address 4096 c) block_size)
pool_alloc-Apart_example =
    pool_alloc-Apart 4096 100 3 511 static_pool_allocator_reset one_taken nothing_held refl
      reset-Represents first_block
