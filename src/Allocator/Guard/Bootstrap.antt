-- ===== src/Allocator/Guard/Bootstrap.antt =====
-- The blocks of the bootstrap pool.
use zzdds_examples.Base.{
  ℕ, ◌+◌, ◌*◌, ◌%◌, ◌^◌, ◌≤◌, ◌<◌, ◌≡◌, refl, ◌==◌, ltb, ltb_false→le, ◌||◌, Bool, true, false,
  Bool-cases, inl, inr, Option, none, some, List, [], ◌∷◌, All, arith,
}
use zzdds_examples.Allocator.Guard.{
  Guard, Real, bootstrap_pool_size, bootstrap_total, bootstrap_calloc, from_bootstrap_pool,
  guarded_free, answer, free, delete, ignored,
}

-- The blocks that a list of callocs gets, with the sizes that were asked for.
abbrev keep : Option ℕ → ℕ → List (ℕ × ℕ) → List (ℕ × ℕ)
keep none len blocks = blocks
keep (some offset) len blocks = (offset, len) ∷ blocks

pub blocks : List (ℕ × ℕ) → ℕ → List (ℕ × ℕ)
blocks [] used = []
blocks ((nmemb, size) ∷ rest) used =
    let (offset, used') = bootstrap_calloc nmemb size used in
    keep offset (nmemb * size) (blocks rest used')

-- From `low` on, the blocks lie one after the other up to the end of a pool at `base`, each at an address
-- that is a multiple of 16.
abbrev pub Separate : ℕ → ℕ → List (ℕ × ℕ) → Type 0
Separate base low [] = low ≤ 4096
Separate base low ((offset, len) ∷ rest) =
    (low ≤ offset) × ((base + offset) % 16 ≡ 0) × Separate base (offset + len) rest

-- A calloc whose product is far from the end of size_t.
abbrev pub Modest : ℕ × ℕ → Type 0
Modest (nmemb, size) = nmemb * size < 2 ^ 63

-- Where a calloc succeeds, its block is the next 16-byte part of the pool.
total-bounds :
    (nmemb size : ℕ)
    → nmemb * size < 2 ^ 63
    → (nmemb * size ≤ bootstrap_total nmemb size)
      × (bootstrap_total nmemb size < 2 ^ 63 + 16)
      × (bootstrap_total nmemb size % 16 ≡ 0)
unfolding bootstrap_total
total-bounds nmemb size small = (omega arith, omega arith, omega arith)

lower :
    (base low low' : ℕ) (bs : List (ℕ × ℕ))
    → low ≤ low'
    → Separate base low' bs
    → Separate base low bs
lower base low low' [] le h = omega (arith, le, h)
lower base low low' ((offset, len) ∷ rest) le h = (omega (arith, le, h.0), h.1, h.2)

right_true : (a b : Bool) → b ≡ true → (a || b) ≡ true
right_true true b h = refl
right_true false b h = h

left_false : (a b : Bool) → (a || b) ≡ false → a ≡ false
left_false true b h = h
left_false false b h = refl

right_false : (a b : Bool) → (a || b) ≡ false → b ≡ false
right_false true b h = ground arith
right_false false b h = h

-- Where a calloc succeeds, it takes the first free bytes of the pool.
took :
    (nmemb size used : ℕ)
    → nmemb * size < 2 ^ 63
    → used ≤ 4096
    → (bootstrap_total nmemb size == 0
        || ltb bootstrap_pool_size ((used + bootstrap_total nmemb size) % 2 ^ 64))
      ≡ false
    → ((used + bootstrap_total nmemb size) % 2 ^ 64 ≡ used + bootstrap_total nmemb size)
      × (used + bootstrap_total nmemb size ≤ 4096)
took nmemb size used small room granted =
    let bounds = total-bounds nmemb size small in
    let below = bounds.1 in
    let wraps : (used + bootstrap_total nmemb size) % 2 ^ 64 ≡ used + bootstrap_total nmemb size =
      omega (arith, below, room) in
    let fits : (used + bootstrap_total nmemb size) % 2 ^ 64 ≤ 4096 =
      ltb_false→le 4096 ((used + bootstrap_total nmemb size) % 2 ^ 64) (
        right_false (bootstrap_total nmemb size == 0)
          (ltb bootstrap_pool_size ((used + bootstrap_total nmemb size) % 2 ^ 64)) granted) in
    (wraps, omega (arith, wraps, fits))

from-Separate :
    (base : ℕ) (rs : List (ℕ × ℕ)) (used : ℕ)
    → All Modest rs
    → used ≤ 4096
    → (base + used) % 16 ≡ 0
    → Separate base used (blocks rs used)
unfolding blocks bootstrap_calloc
from-Separate base [] used small room even = room
from-Separate base ((nmemb, size) ∷ rest) used small room even =
    elim (Bool-cases (
      bootstrap_total nmemb size == 0
      || ltb bootstrap_pool_size ((used + bootstrap_total nmemb size) % 2 ^ 64))) [
        | inl full ↦ rw full (from-Separate base rest used small.1 room even)
        | inr granted ↦
            let t = took nmemb size used small.0 room granted in
            let bounds = total-bounds nmemb size small.0 in
            let aligned = bounds.2 in
            let covers = bounds.0 in
            rw granted (
              omega arith,
              even,
              lower base (used + nmemb * size) _ _ (let e = t.0 in omega (arith, covers, e)) (
                  from-Separate base rest _ small.1
                    (let e = t.0 in let f = t.1 in omega (arith, e, f))
                    (let e = t.0 in omega (arith, e, aligned, even))),
            )
      ]

-- However many callocs dlsym() makes, with products below 2^63, and where the pool starts at a multiple
-- of 16, the blocks that they get from it stand one after the other inside it, at multiples of 16, and
-- each has all the bytes that were asked for.
pub blocks-Separate :
    (base : ℕ) (rs : List (ℕ × ℕ)) → base % 16 ≡ 0 → All Modest rs → Separate base 0 (blocks rs 0)
blocks-Separate base rs aligned small =
    from-Separate base rs 0 small (omega arith) (omega (arith, aligned))

-- The pointer to a block of the pool may be given back at any time, to free and to delete.
abbrev pub Freeable : Bool → List (ℕ × ℕ) → ℕ → List Real → ℕ × ℕ → Type 0
Freeable found inside base diagnostics (offset, len) =
    (g : Guard)
    → (answer found inside base diagnostics (free (base + offset)) g ≡ (ignored, g))
      × (answer found inside base diagnostics (delete (base + offset)) g ≡ (ignored, g))

recognised :
    (found : Bool) (inside : List (ℕ × ℕ)) (diagnostics : List Real) (base offset : ℕ)
    → offset < 4096
    → from_bootstrap_pool found inside base diagnostics (base + offset) ≡ true
unfolding from_bootstrap_pool
recognised found inside diagnostics base offset low = ground arith

inside-Freeable :
    (found : Bool) (inside : List (ℕ × ℕ)) (diagnostics : List Real) (base offset len : ℕ)
    → offset < 4096
    → Freeable found inside base diagnostics (offset, len)
unfolding answer guarded_free
inside-Freeable found inside diagnostics base offset len low g =
    let yes : (base + offset == 0
          || from_bootstrap_pool found inside base diagnostics (base + offset))
        ≡ true =
      right_true _ _ (recognised found inside diagnostics base offset low) in
    rw yes (refl, refl)

from-Freeable :
    (found : Bool) (inside : List (ℕ × ℕ)) (base : ℕ) (diagnostics : List Real) (rs : List (ℕ × ℕ))
    (used : ℕ)
    → All Modest rs
    → used ≤ 4096
    → All (Freeable found inside base diagnostics) (blocks rs used)
unfolding blocks bootstrap_calloc
from-Freeable found inside base diagnostics [] used small room = tt
from-Freeable found inside base diagnostics ((nmemb, size) ∷ rest) used small room =
    elim (Bool-cases (
      bootstrap_total nmemb size == 0
      || ltb bootstrap_pool_size ((used + bootstrap_total nmemb size) % 2 ^ 64))) [
        | inl full ↦ rw full (from-Freeable found inside base diagnostics rest used small.1 room)
        | inr granted ↦
            let t = took nmemb size used small.0 room granted in
            let e = t.0 in
            let f = t.1 in
            let some_bytes =
              left_false (bootstrap_total nmemb size == 0)
                (ltb bootstrap_pool_size ((used + bootstrap_total nmemb size) % 2 ^ 64)) granted in
            rw granted (
              inside-Freeable found inside diagnostics base used (nmemb * size) (ground arith),
              from-Freeable found inside base diagnostics rest _ small.1 (omega (arith, e, f)),
            )
      ]

-- The blocks that the bootstrap pool gives out, for products below 2^63, may be given back with free or
-- delete at any time, also while the guard is armed: such a call is ignored and changes nothing.
pub blocks-Freeable :
    (found : Bool) (inside : List (ℕ × ℕ)) (base : ℕ) (diagnostics : List Real) (rs : List (ℕ × ℕ))
    → All Modest rs
    → All (Freeable found inside base diagnostics) (blocks rs 0)
blocks-Freeable found inside base diagnostics rs small =
    from-Freeable found inside base diagnostics rs 0 small (omega arith)
