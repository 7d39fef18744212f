-- ===== src/Allocator/Pool.antt =====
-- cpp/custom-allocator/src/static_pool_allocator.c: a pool of blocks of one size, with a free list.
-- A block is its index i, for the address of g_pool[i]; the links of the list stand in the blocks
-- themselves, and the model has the list that they form, first block first. Each operation holds the
-- mutex for all that it does to the list, so threads interleave whole operations.
pub mod Address
pub mod Spec
pub mod Refines
use zzdds_examples.Base.{
  ℕ, zero, suc, Bool, ◌||◌, Option, none, some, List, [], ◌∷◌, if◌then◌else◌, ltb, leb,
}

-- STATIC_POOL_BLOCK_SIZE, STATIC_POOL_BLOCK_COUNT and STATIC_POOL_ALIGN
abbrev pub block_size : ℕ
block_size = 4096

abbrev pub block_count : ℕ
block_count = 512

abbrev pub block_align : ℕ
block_align = 16

-- g_free_list
pub record Pool : Type 0 where
  pub free_list : List ℕ

-- The rounds i, …, i + count - 1 of the loop that links the blocks.
unfoldable pub push_blocks : ℕ → ℕ → List ℕ → List ℕ
push_blocks i zero blocks = blocks
push_blocks i (suc count) blocks = push_blocks (suc i) count (i ∷ blocks)

unfoldable pub static_pool_allocator_reset : Pool
static_pool_allocator_reset = record { free_list = push_blocks 0 block_count [] }

-- `node = g_free_list; if (node) g_free_list = node->next;`
unfoldable pub pop_block : List ℕ → Option ℕ × Pool
pop_block [] = (none, record { free_list = [] })
pop_block (b ∷ blocks) = (some b, record { free_list = blocks })

-- `none` is the null pointer.
unfoldable pub pool_alloc : (len alignment : ℕ) → Pool → Option ℕ × Pool
unfolding pop_block
pool_alloc len alignment pool =
    if ltb block_size len || ltb block_align alignment
    then (none, pool)
    else pop_block pool.free_list

unfoldable pub pool_resize : (ptr : Option ℕ) (old_len new_len alignment : ℕ) → Bool
pool_resize ptr old_len new_len alignment = leb new_len block_size

unfoldable pub pool_free : Option ℕ → Pool → Pool
pool_free none pool = pool
pool_free (some b) pool = record { free_list = b ∷ pool.free_list }
