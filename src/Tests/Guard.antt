-- ===== src/Tests/Guard.antt =====
-- Runs of the allocation guard.
use zzdds_examples.Base.{ℕ, ◌+◌, ◌^◌, ◌≡◌, refl, true, some, List, [], ◌∷◌, All, arith}
use zzdds_examples.Allocator.Guard.{
  unarmed, Real, real_malloc, real_realloc, aborted, forwarded, ignored, Request, malloc, new_,
  free, calloc, realloc, arm, bootstrap_total, bootstrap_calloc, used_after, at_least_one,
  from_bootstrap_pool, ensure_real_fns, guarded, guarded_free, answer, is_last, answer_all,
}
use zzdds_examples.Allocator.Guard.Armed.{Untouched, armed-Untouched}
use zzdds_examples.Allocator.Guard.Bootstrap.{
  Separate, blocks, blocks-Separate, Freeable, blocks-Freeable,
}

-- dlsym() asks for 32 bytes once; the pool is at address 8192.
abbrev inner : List (ℕ × ℕ)
inner = (1, 32) ∷ []

-- The diagnostics of trip() allocate once.
abbrev trace : List Real
trace = real_malloc 1024 ∷ []

run_of_guard :
    answer_all true inner 8192 trace
      (malloc 10 ∷ arm ∷ free 8192 ∷ free 0 ∷ new_ 0 ∷ malloc 1 ∷ [])
      unarmed
    ≡ forwarded (real_malloc 10) ∷ ignored ∷ ignored ∷ ignored ∷ aborted "operator new()" trace ∷ []
unfolding answer_all answer guarded guarded_free ensure_real_fns from_bootstrap_pool at_least_one
    is_last used_after bootstrap_calloc bootstrap_total
run_of_guard = refl

-- The product wraps: a request for 2 ^ 64 + 16 bytes gets 16.
calloc_wraps : bootstrap_calloc (2 ^ 60 + 1) 16 0 ≡ (some 0, 16)
unfolding bootstrap_calloc bootstrap_total
calloc_wraps = refl

-- realloc() hands a pointer into the bootstrap pool on.
realloc_passes :
    (answer true inner 8192 trace (realloc 8192 8) unarmed).0 ≡ forwarded (real_realloc 8192 8)
unfolding answer guarded ensure_real_fns
realloc_passes = refl

abbrev armed_requests : List Request
armed_requests = free 0 ∷ free 8200 ∷ arm ∷ calloc 2 8 ∷ malloc 5 ∷ []

armed-Untouched_example :
    All (Untouched trace) (answer_all true inner 8192 trace (arm ∷ armed_requests) unarmed)
armed-Untouched_example =
    armed-Untouched true inner 8192 trace armed_requests unarmed refl
      (tt, (tt, (tt, (tt, (tt, tt)))))

blocks-Separate_example : Separate 8192 0 (blocks ((1, 32) ∷ (3, 7) ∷ (1000, 8) ∷ (1, 1) ∷ []) 0)
blocks-Separate_example =
    blocks-Separate 8192 ((1, 32) ∷ (3, 7) ∷ (1000, 8) ∷ (1, 1) ∷ []) refl
      (omega arith, (omega arith, (omega arith, (omega arith, tt))))

blocks-Freeable_example : All (Freeable true inner 8192 trace) (blocks ((1, 32) ∷ (3, 7) ∷ []) 0)
blocks-Freeable_example =
    blocks-Freeable true inner 8192 trace ((1, 32) ∷ (3, 7) ∷ []) (omega arith, (omega arith, tt))
