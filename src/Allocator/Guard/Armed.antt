-- ===== src/Allocator/Guard/Armed.antt =====
-- What a process gets from the real allocator while the guard is armed: nothing.
use Prim.Native.String.{String}
use zzdds_examples.Base.{
  ℕ, ◌≡◌, ◌⊎◌, refl, ◌||◌, Bool, true, false, List, [], ◌∷◌, All, Bool-cases, inl, inr,
  if◌then◌else◌, arith,
}
use zzdds_examples.Allocator.Guard.{
  Guard, Real, Reply, aborted, forwarded, null_call, granted, ignored, Request, malloc, new_,
  new_array, new_nothrow, new_array_nothrow, calloc, realloc, free, delete, arm, disarm,
  ensure_real_fns, guarded, from_pool, guarded_calloc, guarded_free, answer, is_last, answer_all,
}

-- Not a call of the real allocator, but for what trip() itself asks for.
abbrev pub Untouched : List Real → Reply → Type 0
Untouched diagnostics (aborted what asked) = (asked ≡ diagnostics) ⊎ (asked ≡ [])
Untouched diagnostics (forwarded real) = ⊥
Untouched diagnostics null_call = Unit
Untouched diagnostics (granted offset) = Unit
Untouched diagnostics ignored = Unit

-- Any request but the one that disarms the guard.
abbrev pub StaysArmed : Request → Type 0
StaysArmed disarm = ⊥
StaysArmed r = Unit

-- The thread's requests are watched.
record Watching (g : Guard) : Type 0 where
  armed : g.armed ≡ true
  outside : g.in_trip ≡ false

-- A reply that leaves the real allocator alone, and the guard on watch unless it was the last.
abbrev Fine : List Real → Reply × Guard → Type 0
Fine diagnostics (o, g) = Untouched diagnostics o × (is_last o ≡ false → Watching g)

either : {A : Type 0} (P : A → Type 0) (b : Bool) {x y : A} → P x → P y → P (if b then x else y)
either P true h h' = h
either P false h h' = h'

asked_by :
    {diagnostics : List Real} (resolved : Bool)
    → ((if resolved then diagnostics else []) ≡ diagnostics)
      ⊎ ((if resolved then diagnostics else []) ≡ [])
asked_by true = inl refl
asked_by false = inr refl

module _ (found : Bool) (inside : List (ℕ × ℕ)) (base : ℕ) (diagnostics : List Real) where
  ensure-Watching :
      (g : Guard) → Watching g → Watching (ensure_real_fns found inside base diagnostics g)
  unfolding ensure_real_fns
  ensure-Watching g h =
      either Watching (g.resolved || g.resolving) h
        (record { armed = h.armed; outside = h.outside })

  guarded-Fine :
      (what : String) (real : Real) (g : Guard)
      → Watching g
      → Fine diagnostics (guarded found inside base diagnostics what real g)
  unfolding guarded is_last
  guarded-Fine what real g h =
      rw (h.armed, h.outside) (asked_by g.resolved, λ e. absurd (ground arith))

  from_pool-Fine :
      (nmemb size : ℕ) (g : Guard)
      → Watching g
      → Fine diagnostics (from_pool found inside base diagnostics nmemb size g)
  unfolding from_pool
  from_pool-Fine nmemb size g h = (tt, λ e. record { armed = h.armed; outside = h.outside })

  calloc-Fine :
      (nmemb size : ℕ) (g : Guard)
      → Watching g
      → Fine diagnostics (guarded_calloc found inside base diagnostics nmemb size g)
  unfolding guarded_calloc
  calloc-Fine nmemb size g h =
      let g' = ensure_real_fns found inside base diagnostics g in
      either (Fine diagnostics) g.resolved (guarded-Fine _ _ g h) (
        either (Fine diagnostics) g.resolving (from_pool-Fine nmemb size g h) (
          either (Fine diagnostics) g'.resolved (guarded-Fine _ _ g' (ensure-Watching g h))
            (from_pool-Fine nmemb size g' (ensure-Watching g h))))

  free-Fine :
      (what : String) (ptr : ℕ) (g : Guard)
      → Watching g
      → Fine diagnostics (guarded_free found inside base diagnostics what ptr g)
  unfolding guarded_free
  free-Fine what ptr g h =
      either (Fine diagnostics) _ (tt, λ e. h) (guarded-Fine _ _ _ (ensure-Watching g h))

  answer-Fine :
      (r : Request) (g : Guard)
      → StaysArmed r
      → Watching g
      → Fine diagnostics (answer found inside base diagnostics r g)
  unfolding answer
  answer-Fine (malloc size) g a h = guarded-Fine _ _ _ (ensure-Watching g h)
  answer-Fine (new_ size) g a h = guarded-Fine _ _ _ (ensure-Watching g h)
  answer-Fine (new_array size) g a h = guarded-Fine _ _ _ (ensure-Watching g h)
  answer-Fine (new_nothrow size) g a h = guarded-Fine _ _ _ (ensure-Watching g h)
  answer-Fine (new_array_nothrow size) g a h = guarded-Fine _ _ _ (ensure-Watching g h)
  answer-Fine (calloc nmemb size) g a h = calloc-Fine nmemb size g h
  answer-Fine (realloc ptr size) g a h = guarded-Fine _ _ _ (ensure-Watching g h)
  answer-Fine (free ptr) g a h = free-Fine _ ptr g h
  answer-Fine (delete ptr) g a h = free-Fine _ ptr g h
  answer-Fine arm g a h =
      (tt, λ e. record { armed = refl; outside = (ensure-Watching g h).outside })
  answer-Fine disarm g a h = absurd a

  watched-Untouched :
      (rs : List Request) (g : Guard)
      → All StaysArmed rs
      → Watching g
      → All (Untouched diagnostics) (answer_all found inside base diagnostics rs g)
  unfolding answer_all
  watched-Untouched [] g a h = tt
  watched-Untouched (r ∷ rs) g a h =
      let fine = answer-Fine r g a.0 h in
      (
        fine.0,
        elim (Bool-cases (is_last (answer found inside base diagnostics r g).0)) [
          | inl over ↦ rw over tt
          | inr on ↦ rw on (watched-Untouched rs _ a.1 (fine.1 on))
        ],
      )

-- Once a thread that is not in trip() has armed the guard, no request of it reaches the real allocator
-- until it disarms the guard: each is ignored, or calls a null pointer, or is served from the bootstrap
-- pool, or aborts the process, in which case the real allocator sees what the diagnostics of trip() ask
-- for and no more.
pub armed-Untouched :
    (found : Bool) (inside : List (ℕ × ℕ)) (base : ℕ) (diagnostics : List Real) (rs : List Request)
    (g : Guard)
    → g.in_trip ≡ false
    → All StaysArmed rs
    → All (Untouched diagnostics) (answer_all found inside base diagnostics (arm ∷ rs) g)
unfolding answer_all answer is_last ensure_real_fns
armed-Untouched found inside base diagnostics rs g outside a = (
  tt,
  watched-Untouched found inside base diagnostics rs _ a (record {
    armed = refl;
    outside =
        either (λ (g' : Guard). g'.in_trip ≡ false) (g.resolved || g.resolving) outside outside;
  }),
)
