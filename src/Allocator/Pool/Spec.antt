-- ===== src/Allocator/Pool/Spec.antt =====
-- What the pool promises to its users: a set of blocks that are held, of which a request may have
-- any block that nobody holds.
use zzdds_examples.Base.{
  ℕ, ◌≤◌, ◌<◌, ◌≡◌, ◌==◌, Bool, true, false, Option, none, some, List, [], ◌∷◌, if◌then◌else◌,
}
use zzdds_examples.Allocator.Pool.{
  block_size, block_count, block_align, Pool, pool_alloc, pool_resize, pool_free,
}

-- A call of one of the three functions of `static_pool_allocator`.
pub data Request : Type 0 where
  alloc : (len alignment : ℕ) → Request
  resize : (block new_len : ℕ) → Request
  free : Option ℕ → Request

pub data Answer : Type 0 where
  given : Option ℕ → Answer
  resized : Bool → Answer
  freed : Answer

unfoldable pub serve : Request → Pool → Answer × Pool
unfolding pool_alloc pool_resize pool_free
serve (alloc len alignment) pool = let r = pool_alloc len alignment pool in (given r.0, r.1)
serve (resize b new_len) pool = (resized (pool_resize (some b) 0 new_len block_align), pool)
serve (free p) pool = (freed, pool_free p pool)

-- The set of the blocks that are held.
abbrev pub Held : Type 0
Held = ℕ → Bool

abbrev pub nothing_held : Held
nothing_held b = false

abbrev pub mark : ℕ → Bool → Held → Held
mark b v held c = if c == b then v else held c

-- What a user may do: give back a block that is held, or the null pointer.
abbrev pub Disciplined : Held → Request → Type 0
Disciplined held (alloc len alignment) = Unit
Disciplined held (resize b new_len) = held b ≡ true
Disciplined held (free none) = Unit
Disciplined held (free (some b)) = held b ≡ true

abbrev pub Fits : ℕ → ℕ → Type 0
Fits len alignment = (len ≤ block_size) × (alignment ≤ block_align)

abbrev pub Exhausted : Held → Type 0
Exhausted held = (b : ℕ) → b < block_count → held b ≡ true

-- One step of the abstract pool: a request, its answer, and what is held then.
pub data Step (held : Held) : Request → Answer → Held → Type 0 where
  refused_size :
      {len alignment : ℕ} → block_size < len → Step held (alloc len alignment) (given none) held
  refused_alignment :
      {len alignment : ℕ}
      → block_align < alignment
      → Step held (alloc len alignment) (given none) held
  exhausted :
      {len alignment : ℕ}
      → Fits len alignment
      → Exhausted held
      → Step held (alloc len alignment) (given none) held
  granted :
      {len alignment b : ℕ}
      → Fits len alignment
      → b < block_count
      → held b ≡ false
      → Step held (alloc len alignment) (given (some b)) (mark b true held)
  grown : {b new_len : ℕ} → new_len ≤ block_size → Step held (resize b new_len) (resized true) held
  not_grown :
      {b new_len : ℕ} → block_size < new_len → Step held (resize b new_len) (resized false) held
  returned : {b : ℕ} → held b ≡ true → Step held (free (some b)) freed (mark b false held)
  returned_null : Step held (free none) freed held

-- A run: requests with their answers, and the pool after each.
unfoldable pub serve_all : List Request → Pool → List Answer × Pool
serve_all [] pool = ([], pool)
serve_all (r ∷ rs) pool =
    let (a, pool') = serve r pool in
    let (answers, pool'') = serve_all rs pool' in (a ∷ answers, pool'')

-- What a user holds after an answer.
abbrev pub after : Held → Request → Answer → Held
after held (alloc len alignment) (given (some b)) = mark b true held
after held (free (some b)) a = mark b false held
after held r a = held

-- A user that keeps the discipline through a run.
abbrev pub Keeps : Held → List Request → List Answer → Type 0
Keeps held (r ∷ rs) (a ∷ answers) = Disciplined held r × Keeps (after held r a) rs answers
Keeps held rs answers = Unit

-- The answers of the abstract pool to a list of requests.
pub data Run : Held → List Request → List Answer → Held → Type 0 where
  stop : {held : Held} → Run held [] [] held
  step :
      {r : Request} {a : Answer} {rs : List Request} {answers : List Answer}
      {held held' held'' : Held}
      → Step held r a held'
      → Run held' rs answers held''
      → Run held (r ∷ rs) (a ∷ answers) held''
