-- ===== src/Allocator/Guard.antt =====
-- cpp/custom-allocator/src/noalloc_guard_preload.cpp: the library that takes the place of malloc, calloc,
-- realloc, free, operator new and operator delete. A pointer is its address, 0 for the null pointer. The
-- four real functions are found by one round of dlsym() or not at all.
pub mod Armed
pub mod Bootstrap
use Prim.Native.String.{String}
use zzdds_examples.Base.{
  ℕ, ◌+◌, ◌*◌, ◌/◌, ◌%◌, ◌^◌, ◌==◌, ltb, leb, not, ◌&&◌, ◌||◌, Bool, true, false, Option, none,
  some, List, [], ◌∷◌, if◌then◌else◌,
}

-- BOOTSTRAP_POOL_SIZE
abbrev pub bootstrap_pool_size : ℕ
bootstrap_pool_size = 4096

-- g_armed, t_in_trip of the thread, whether the real functions are found, g_resolving, g_bootstrap_used
pub record Guard : Type 0 where
  pub armed : Bool
  pub in_trip : Bool
  pub resolved : Bool
  pub resolving : Bool
  pub bootstrap_used : ℕ

-- The static initial values.
abbrev pub unarmed : Guard
unarmed = record {
  armed = false;
  in_trip = false;
  resolved = false;
  resolving = false;
  bootstrap_used = 0;
}

-- A size_t has 64 bits.
unfoldable pub bootstrap_total : (nmemb size : ℕ) → ℕ
bootstrap_total nmemb size = (nmemb * size % 2 ^ 64 + 15) % 2 ^ 64 / 16 * 16

-- The offset into the pool, and g_bootstrap_used.
unfoldable pub bootstrap_calloc : (nmemb size used : ℕ) → Option ℕ × ℕ
bootstrap_calloc nmemb size used =
    let total = bootstrap_total nmemb size in
    if total == 0 || ltb bootstrap_pool_size ((used + total) % 2 ^ 64)
    then (none, used)
    else (some used, (used + total) % 2 ^ 64)

-- The callocs that dlsym() makes while it resolves.
unfoldable pub used_after : List (ℕ × ℕ) → ℕ → ℕ
used_after [] used = used
used_after ((nmemb, size) ∷ rest) used = used_after rest (bootstrap_calloc nmemb size used).1

-- What the real functions are called with.
pub data Real : Type 0 where
  real_malloc : (size : ℕ) → Real
  real_calloc : (nmemb size : ℕ) → Real
  real_realloc : (ptr size : ℕ) → Real
  real_free : (ptr : ℕ) → Real

-- trip() with what its diagnostics ask of the real functions, a call of a real function, a call of a null pointer, a pointer from the pool, nothing.
pub data Reply : Type 0 where
  aborted : String → List Real → Reply
  forwarded : Real → Reply
  null_call : Reply
  granted : Option ℕ → Reply
  ignored : Reply

-- Whether the process does not go on.
unfoldable pub is_last : Reply → Bool
is_last (aborted what asked) = true
is_last null_call = true
is_last (forwarded real) = false
is_last (granted offset) = false
is_last ignored = false

-- The requests of the process.
pub data Request : Type 0 where
  malloc new_ new_array new_nothrow new_array_nothrow : (size : ℕ) → Request
  calloc : (nmemb size : ℕ) → Request
  realloc : (ptr size : ℕ) → Request
  free delete : (ptr : ℕ) → Request
  arm disarm : Request

-- `size == 0 ? 1 : size`
unfoldable pub at_least_one : ℕ → ℕ
at_least_one size = if size == 0 then 1 else size

-- `found` and `inside` are dlsym()'s: whether it finds the functions, and its own calls of calloc.
-- `base` is the address of g_bootstrap_pool. `diagnostics` is what fprintf() and the backtrace in trip()
-- allocate and free; t_in_trip lets it through to the real functions.
module _ (found : Bool) (inside : List (ℕ × ℕ)) (base : ℕ) (diagnostics : List Real) where
  unfoldable pub from_bootstrap_pool : ℕ → Bool
  from_bootstrap_pool ptr = leb base ptr && ltb ptr (base + bootstrap_pool_size)

  unfoldable pub ensure_real_fns : Guard → Guard
  ensure_real_fns g =
      if g.resolved || g.resolving
      then g
      else record g { resolved = found; bootstrap_used = used_after inside g.bootstrap_used }

  -- `if (!t_in_trip && g_armed.load()) trip(what); return real(…);`
  unfoldable pub guarded : String → Real → Guard → Reply × Guard
  guarded what real g =
      if not g.in_trip && g.armed
      then (aborted what (if g.resolved then diagnostics else []), record g { in_trip = true })
      else (if g.resolved then forwarded real else null_call, g)

  unfoldable pub from_pool : (nmemb size : ℕ) → Guard → Reply × Guard
  from_pool nmemb size g =
      let (offset, used) = bootstrap_calloc nmemb size g.bootstrap_used in
      (granted offset, record g { bootstrap_used = used })

  unfoldable pub guarded_calloc : (nmemb size : ℕ) → Guard → Reply × Guard
  guarded_calloc nmemb size g =
      if g.resolved
      then guarded "calloc()" (real_calloc nmemb size) g
      else if g.resolving
      then from_pool nmemb size g
      else (let g' = ensure_real_fns g in
          if g'.resolved
          then guarded "calloc()" (real_calloc nmemb size) g'
          else from_pool nmemb size g')

  unfoldable pub guarded_free : String → (ptr : ℕ) → Guard → Reply × Guard
  guarded_free what ptr g =
      if ptr == 0 || from_bootstrap_pool ptr
      then (ignored, g)
      else guarded what (real_free ptr) (ensure_real_fns g)

  unfoldable pub answer : Request → Guard → Reply × Guard
  answer (malloc size) g = guarded "malloc()" (real_malloc size) (ensure_real_fns g)
  answer (new_ size) g =
      guarded "operator new()" (real_malloc (at_least_one size)) (ensure_real_fns g)
  answer (new_array size) g =
      guarded "operator new()" (real_malloc (at_least_one size)) (ensure_real_fns g)
  answer (new_nothrow size) g =
      guarded "operator new(nothrow)" (real_malloc (at_least_one size)) (ensure_real_fns g)
  answer (new_array_nothrow size) g =
      guarded "operator new[](nothrow)" (real_malloc (at_least_one size)) (ensure_real_fns g)
  answer (calloc nmemb size) g = guarded_calloc nmemb size g
  answer (realloc ptr size) g = guarded "realloc()" (real_realloc ptr size) (ensure_real_fns g)
  answer (free ptr) g = guarded_free "free()" ptr g
  answer (delete ptr) g = guarded_free "operator delete()" ptr g
  answer arm g = (ignored, record (ensure_real_fns g) { armed = true })
  answer disarm g = (ignored, record g { armed = false })

  -- A process, which ends where it aborts or calls a null pointer.
  unfoldable pub answer_all : List Request → Guard → List Reply
  answer_all [] g = []
  answer_all (r ∷ rs) g =
      let (reply, g') = answer r g in
      let rest = answer_all rs g' in reply ∷ (if is_last reply then [] else rest)
