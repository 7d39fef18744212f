-- ===== src/Apps/Catchup/Subscriber/Flags.antt =====
-- The flags of the catchup subscriber, and what they say of the lines that it has printed.
use zzdds_examples.Base.{
  ℕ, zero, suc, ◌+◌, ◌≤◌, ◌≡◌, refl, Bool, true, false, List, [], ◌∷◌, ◌++◌, All, length, arith,
}
use zzdds_examples.Base.Int.{ℤ, pos}
use zzdds_examples.Base.Embeds.{Embeds, Embeds-append}
use zzdds_examples.Apps.Catchup.Subscriber.{raise, all_raised, count_raised}

-- The number is on one of the lines.
abbrev pub On : List ℤ → ℕ → Type 0
On xs n = Embeds (pos n ∷ []) xs

-- `P` holds of each number whose flag is raised; the first flag is that of `n`.
abbrev pub Raised : (ℕ → Type 0) → ℕ → List Bool → Type 0
Raised P n [] = Unit
Raised P n (b ∷ flags) = (b ≡ true → P n) × Raised P (suc n) flags

-- Each flag that is raised stands for a number on the lines.
abbrev pub Backed : ℕ → List Bool → List ℤ → Type 0
Backed n flags xs = Raised (On xs) n flags

abbrev pub count_from : ℕ → ℕ → List ℕ
count_from n zero = []
count_from n (suc count) = n ∷ count_from (suc n) count

pub length-raise : (i : ℕ) (flags : List Bool) → length (raise i flags) ≡ length flags
unfolding raise
length-raise i [] = refl
length-raise zero (b ∷ flags) = refl
length-raise (suc i) (b ∷ flags) = omega (arith, length-raise i flags)

pub all_raised-raise :
    (i : ℕ) (flags : List Bool) → all_raised flags ≡ true → all_raised (raise i flags) ≡ true
unfolding raise all_raised
all_raised-raise i [] h = refl
all_raised-raise zero (b ∷ flags) h = ground arith
all_raised-raise (suc i) (true ∷ flags) h = all_raised-raise i flags h
all_raised-raise (suc i) (false ∷ flags) h = cc

count_raised-le : (flags : List Bool) → count_raised flags ≤ length flags
unfolding count_raised
count_raised-le [] = omega arith
count_raised-le (true ∷ flags) = omega (arith, count_raised-le flags)
count_raised-le (false ∷ flags) = omega (arith, count_raised-le flags)

-- A count of all flags says that all are raised.
pub count_raised-all :
    (flags : List Bool) → count_raised flags ≡ length flags → all_raised flags ≡ true
unfolding count_raised all_raised
count_raised-all [] h = refl
count_raised-all (true ∷ flags) h = count_raised-all flags (omega arith)
count_raised-all (false ∷ flags) h = absurd (omega (arith, count_raised-le flags))

pub Backed-append :
    (n : ℕ) (flags : List Bool) (xs ys : List ℤ) → Backed n flags xs → Backed n flags (xs ++ ys)
Backed-append n [] xs ys h = tt
Backed-append n (b ∷ flags) xs ys h =
    (λ e. Embeds-append ys (h.0 e), Backed-append (suc n) flags xs ys h.1)

pub Raised-raise :
    (P : ℕ → Type 0) (n i : ℕ) (flags : List Bool)
    → P (n + i)
    → Raised P n flags
    → Raised P n (raise i flags)
unfolding raise
Raised-raise P n i [] here h = tt
Raised-raise P n zero (b ∷ flags) here h =
    (λ e. let same : n + 0 ≡ n = omega arith in rw same at here, h.1)
Raised-raise P n (suc i) (b ∷ flags) here h = (
  h.0,
  Raised-raise P (suc n) i flags (let same : n + suc i ≡ suc n + i = omega arith in rw same at here)
      h.1,
)

pub all_raised-Raised :
    (P : ℕ → Type 0) (n : ℕ) (flags : List Bool)
    → Raised P n flags
    → all_raised flags ≡ true
    → All P (count_from n (length flags))
unfolding all_raised
all_raised-Raised P n [] h e = tt
all_raised-Raised P n (true ∷ flags) h e = (h.0 refl, all_raised-Raised P (suc n) flags h.1 e)
all_raised-Raised P n (false ∷ flags) h e = cc
