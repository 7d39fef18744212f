-- ===== src/Allocator/Pool/Address.antt =====
-- The bytes of a block.
use zzdds_examples.Base.{
  ℕ, zero, suc, Option, ◌+◌, ◌*◌, ◌%◌, ◌^◌, ◌≤◌, ◌<◌, ◌≡◌, ◌⊎◌, inl, inr, ltb, Bool-cases, true,
  false, refl, some, none, [], ◌∷◌, List, arith, ◌∙◌, ap, ◌≢◌, sym,
}
use zzdds_examples.Allocator.Pool.{
  block_size, block_count, block_align, Pool, pop_block, pool_alloc,
}
use zzdds_examples.Allocator.Pool.Spec.{Held}
use zzdds_examples.Allocator.Pool.Refines.{Represents, pop-Represents}

-- `g_pool[b]`, where `g_pool` stands at `base`.
abbrev pub address : ℕ → ℕ → ℕ
address base b = base + b * block_size

-- The `len` bytes at `p` and the `len'` bytes at `q` have none in common.
abbrev pub Apart : (p len q len' : ℕ) → Type 0
Apart p len q len' = (p + len ≤ q) ⊎ (q + len' ≤ p)

blocks-Apart :
    (base len b c : ℕ)
    → b ≢ c
    → len ≤ block_size
    → Apart (address base b) len (address base c) block_size
blocks-Apart base len b c e fits = elim (Bool-cases (ltb b c)) [
  | inl below ↦ inl (ground arith)
  | inr above ↦ inr (let low : c < b = ground arith in omega arith)
]

power_pos : (k : ℕ) → 0 < 2 ^ k
power_pos zero = omega arith
power_pos (suc k) = let p = power_pos k in omega arith

aligned : (base b k : ℕ) → base % block_align ≡ 0 → 2 ^ k ≤ block_align → address base b % 2 ^ k ≡ 0
aligned base b zero e small = omega arith
aligned base b (suc zero) e small = omega (arith, e)
aligned base b (suc (suc zero)) e small = omega (arith, e)
aligned base b (suc (suc (suc zero))) e small = omega (arith, e)
aligned base b (suc (suc (suc (suc zero)))) e small = omega (arith, e)
aligned base b (suc (suc (suc (suc (suc k))))) e small = absurd (let p = power_pos k in omega arith)

-- What is known of a block that a request gets.
abbrev Granted : Held → ℕ → ℕ → ℕ → Type 0
Granted held len alignment b =
    (len ≤ block_size) × (alignment ≤ block_align) × (b < block_count) × (held b ≡ false)

popped :
    (blocks : List ℕ) (b : ℕ) (pool' : Pool) (held : Held)
    → Represents (record { free_list = blocks }) held
    → pop_block blocks ≡ (some b, pool')
    → (b < block_count) × (held b ≡ false)
unfolding pop_block
popped [] b pool' held h got = cc
popped (c ∷ blocks) b pool' held h got =
    let (low, unheld, _) = pop-Represents c blocks held h in
    let e : c ≡ b = cc in (rw (← e) low, rw (← e) unheld)

not_refused : (b : ℕ) (pool pool' : Pool) → ◌≢◌ {A = Option ℕ × Pool} (none, pool) (some b, pool')
not_refused b pool pool' e = cc

pool_alloc-Granted :
    (len alignment b : ℕ) (pool pool' : Pool) (held : Held)
    → Represents pool held
    → pool_alloc len alignment pool ≡ (some b, pool')
    → Granted held len alignment b
unfolding pool_alloc
pool_alloc-Granted len alignment b pool pool' held h got = elim (Bool-cases (ltb block_size len)) [
  | inl large ↦ absurd (not_refused b pool pool' (sym (refused large) ∙ got))
  | inr small ↦ elim (Bool-cases (ltb block_align alignment)) [
    | inl coarse ↦ absurd (not_refused b pool pool' (sym (unaligned small coarse) ∙ got))
    | inr fine ↦
        let (low, unheld) = popped pool.free_list b pool' held h (sym (served small fine) ∙ got) in
        (ground arith, ground arith, low, unheld)
  ]
]
  where
    refused : ltb block_size len ≡ true → pool_alloc len alignment pool ≡ (none, pool)
    refused large = rw large refl

    unaligned :
        ltb block_size len ≡ false
        → ltb block_align alignment ≡ true
        → pool_alloc len alignment pool ≡ (none, pool)
    unaligned small coarse = rw (small, coarse) refl

    served :
        ltb block_size len ≡ false
        → ltb block_align alignment ≡ false
        → pool_alloc len alignment pool ≡ pop_block pool.free_list
    served small fine = rw (small, fine) refl

-- A pool at an address that is a multiple of 16, with some of its blocks held: what a request for
-- `len` bytes at an alignment of 2 ^ k gets lies inside the pool, is aligned as asked, and shares no
-- byte with any block that is held.
pub pool_alloc-Apart :
    (base len k b : ℕ) (pool pool' : Pool) (held : Held)
    → base % block_align ≡ 0
    → Represents pool held
    → pool_alloc len (2 ^ k) pool ≡ (some b, pool')
    → (base ≤ address base b)
      × (address base b + len ≤ base + block_count * block_size)
      × (address base b % 2 ^ k ≡ 0)
      × ((c : ℕ) → held c ≡ true → Apart (address base b) len (address base c) block_size)
pool_alloc-Apart base len k b pool pool' held e h got =
    let (fits, fine, low, unheld) = pool_alloc-Granted len (2 ^ k) b pool pool' held h got in
    (
      omega arith,
      omega arith,
      aligned base b k e fine,
      λ c taken.
          blocks-Apart base len b c (λ same. let f : held b ≡ held c = ap held same in cc) fits,
    )
