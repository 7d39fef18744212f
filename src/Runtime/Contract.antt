-- ===== src/Runtime/Contract.antt =====
-- Proof rules: what holds after a program, for each way in which it can end.
pub mod Seen
use Prim.Native.String.{String}
use mathlib.Core.List.{append-nil}
use zzdds_examples.Base.{
  ℕ, zero, suc, ◌⊎◌, ◌≡◌, refl, Bool, true, false, List, [], ◌∷◌, ◌++◌, if◌then◌else◌, arith, inl,
  inr,
}
use zzdds_examples.Dds.{is_ok}
use zzdds_examples.Runtime.Event.{
  Arg, Call, Event, called, failure_of, Observer, observed, failures,
}
use zzdds_examples.Runtime.Program.{
  Outcome, done, exited, stuck, World, M, Env, resume, ◌>>=◌, ◌>>◌, return, exit, get, emit, modify,
  fail, check, create, invoke, query, signalled, must_create, must_return, for_range, for_each,
  when,
}

-- `Q` after a normal end, `X` after an exit; a program with a contract does not run out of fuel.
abbrev pub Holds :
    {S St A : Type 0}
    → (A → World S St → Type 0)
    → (ℕ → World S St → Type 0)
    → Outcome A × World S St
    → Type 0
Holds Q X (done a, w) = Q a w
Holds Q X (exited n, w) = X n w
Holds Q X (stuck, w) = ⊥

-- The program `m`, started where `I` holds, keeps this contract.
pub record Does {S St A : Type 0} (I : World S St → Type 0) (m : M S St A)
    (Q : A → World S St → Type 0) (X : ℕ → World S St → Type 0) : Type 0 where
  pub run : (w : World S St) → I w → Holds Q X (m w)

-- No line on stderr so far, and `J` of the state and of what is seen of the log.
pub record At {S St X : Type 0} (seen : Observer S X) (J : St → List X → Type 0) (w : World S St)
    : Type 0 where
  pub quiet : failures w.log ≡ 0
  pub holds : J w.state (observed seen w.log)

-- An exit with status 1 after exactly one line on stderr, and `K` of what is seen
-- of the log.
pub record Failed {S St X : Type 0} (seen : Observer S X) (K : List X → Type 0) (n : ℕ)
    (w : World S St) : Type 0 where
  pub status : n ≡ 1
  pub once : failures w.log ≡ 1
  pub holds : K (observed seen w.log)

-- After the call `c`, `J'` holds of the state and of what is seen, the call included.
abbrev pub Turns :
    {S St X : Type 0}
    → Observer S X
    → (St → List X → Type 0)
    → (St → List X → Type 0)
    → Call S
    → Type 0
Turns {St} {X} seen J J' c = (st : St) (xs : List X) → J st xs → J' st (xs ++ seen.see (called c))

-- Where `J` holds, a failure is described by `K`.
abbrev pub Covers : {St X : Type 0} → (St → List X → Type 0) → (List X → Type 0) → Type 0
Covers {St} {X} J K = (st : St) (xs : List X) → J st xs → K xs

module _ {S St : Type 0} where
  resume-Holds :
      {A B : Type 0} {Q : A → World S St → Type 0} {R : B → World S St → Type 0}
      {X : ℕ → World S St → Type 0} {f : A → M S St B}
      → ((a : A) → Does (Q a) (f a) R X)
      → (r : Outcome A × World S St) → Holds Q X r
      → Holds R X (resume r f)
  unfolding resume
  resume-Holds k (done a, w) h = (k a).run w h
  resume-Holds k (exited n, w) h = h
  resume-Holds k (stuck, w) h = h

  -- One program after another.
  pub bind :
      {A B : Type 0} {I : World S St → Type 0} {Q : A → World S St → Type 0}
      {R : B → World S St → Type 0} {X : ℕ → World S St → Type 0} {m : M S St A} {f : A → M S St B}
      → Does I m Q X
      → ((a : A) → Does (Q a) (f a) R X)
      → Does I (m >>= f) R X
  unfolding ◌>>=◌
  bind {m} h k = record { run = λ w i. resume-Holds k (m w) (h.run w i) }

  pub chain :
      {B : Type 0} {I : World S St → Type 0} {Q : Unit {0} → World S St → Type 0}
      {R : B → World S St → Type 0} {X : ℕ → World S St → Type 0} {m : M S St (Unit {0})}
      {k : M S St B}
      → Does I m Q X
      → Does (Q tt) k R X
      → Does I (m >> k) R X
  unfolding ◌>>◌
  chain {m} h k = record { run = λ w i. resume-Holds (λ _. k) (m w) (h.run w i) }

  pub weaken :
      {A : Type 0} {I : World S St → Type 0} {Q R : A → World S St → Type 0}
      {X : ℕ → World S St → Type 0} {m : M S St A}
      → Does I m Q X
      → ((a : A) (w : World S St) → Q a w → R a w)
      → Does I m R X
  weaken {A} {Q} {R} {X} {m} h k = record { run = λ w i. weaken-Holds (m w) (h.run w i) }
    where
      weaken-Holds : (r : Outcome A × World S St) → Holds Q X r → Holds R X r
      weaken-Holds (done a, w) q = k a w q
      weaken-Holds (exited n, w) q = q
      weaken-Holds (stuck, w) q = q

  pub given :
      {A : Type 0} {I I' : World S St → Type 0} {Q : A → World S St → Type 0}
      {X : ℕ → World S St → Type 0} {m : M S St A}
      → ((w : World S St) → I w → I' w)
      → Does I' m Q X
      → Does I m Q X
  given k h = record { run = λ w i. h.run w (k w i) }

  -- What the program reads is the state.
  pub get-Does :
      {I : World S St → Type 0} {X : ℕ → World S St → Type 0}
      → Does I get (λ st w. I w × (w.state ≡ st)) X
  unfolding get
  get-Does = record { run = λ w i. (i, refl) }

  pub return-Does :
      {A : Type 0} {Q : A → World S St → Type 0} {X : ℕ → World S St → Type 0} (a : A)
      → Does (Q a) (return a) Q X
  unfolding return
  return-Does a = record { run = λ w h. h }

-- The end of a process: status 0 where `Q` holds, or a failure that `K` describes.
abbrev pub Ends :
    {S St X : Type 0}
    → Observer S X
    → (World S St → Type 0)
    → (List X → Type 0)
    → ℕ
    → World S St
    → Type 0
Ends seen Q K n w = ((n ≡ 0) × Q w) ⊎ Failed seen K n w

-- A main whose body keeps a contract, and which then returns 0.
pub finish :
    {S St X : Type 0} {seen : Observer S X} {I Q : World S St → Type 0} {K : List X → Type 0}
    {m : M S St (Unit {0})}
    → Does I m (λ _. Q) (Failed seen K)
    → Does I (m >> exit {A = Unit {0}} 0) (λ _ _. ⊥) (Ends seen Q K)
unfolding ◌>>◌ exit resume
finish {seen} {Q} {K} {m} h = record { run = λ w i. ends (m w) (h.run w i) }
  where
    ends :
        (r : Outcome (Unit {0}) × World _ _)
        → Holds (λ _. Q) (Failed seen K) r
        → Holds {A = Unit {0}} (λ _ _. ⊥) (Ends seen Q K) (resume r (λ _. exit 0))
    ends (done a, w) q = inl (refl, q)
    ends (exited n, w) q = inr q
    ends (stuck, w) q = q

-- The start of a process.
pub start-At :
    {S St X : Type 0} {seen : Observer S X} {J : St → List X → Type 0} (st : St)
    → J st []
    → At seen J (record { log = []; state = st })
unfolding failures observed
start-At st h = record { quiet = refl; holds = h }

-- Where a program may also end the process with status 0 and nothing on stderr.
pub or_done :
    {S St A X : Type 0} {seen : Observer S X} {I Q' : World S St → Type 0}
    {Q : A → World S St → Type 0} {K : List X → Type 0} {m : M S St A}
    → Does I m Q (Failed seen K)
    → Does I m Q (Ends seen Q' K)
or_done {A} {seen} {Q'} {Q} {K} {m} h = record { run = λ w i. widen (m w) (h.run w i) }
  where
    widen : (r : Outcome A × World _ _) → Holds Q (Failed seen K) r → Holds Q (Ends seen Q' K) r
    widen (done a, w) q = q
    widen (exited n, w) q = inr q
    widen (stuck, w) q = q

module _ {S St : Type 0} {I : World S St → Type 0} {X : ℕ → World S St → Type 0} where
  pub when-Does :
      (b : Bool) {m : M S St (Unit {0})} → Does I m (λ _. I) X → Does I (when b m) (λ _. I) X
  unfolding when
  when-Does true h = h
  when-Does false h = return-Does tt

  pub for_range-Does :
      (body : ℕ → M S St (Unit {0}))
      → ((i : ℕ) → Does I (body i) (λ _. I) X)
      → (i count : ℕ) → Does I (for_range body i count) (λ _. I) X
  unfolding for_range
  for_range-Does body h i zero = return-Does tt
  for_range-Does body h i (suc count) = chain (h i) (for_range-Does body h (suc i) count)

  pub for_each-Does :
      {Y : Type 0} (body : ℕ → Y → M S St (Unit {0}))
      → ((i : ℕ) (y : Y) → Does I (body i y) (λ _. I) X)
      → (i : ℕ) (ys : List Y) → Does I (for_each body i ys) (λ _. I) X
  unfolding for_each
  for_each-Does body h i [] = return-Does tt
  for_each-Does body h i (y ∷ ys) = chain (h i y) (for_each-Does body h (suc i) ys)

  pub if-Does :
      (b : Bool) {A : Type 0} {Q : A → World S St → Type 0} {m k : M S St A}
      → Does I m Q X
      → Does I k Q X
      → Does I (if b then m else k) Q X
  if-Does true h h' = h
  if-Does false h h' = h'

  pub exit-Does :
      {A : Type 0} {Q : A → World S St → Type 0} (n : ℕ)
      → ((w : World S St) → I w → X n w)
      → Does I (exit {A = A} n) Q X
  unfolding exit
  exit-Does n h = record { run = h }

  -- What is known of the results so far.
  pub known :
      {P A : Type 0} {Q : A → World S St → Type 0} {m : M S St A}
      → (P → Does I m Q X)
      → Does (λ w. I w × P) m Q X
  known k = record { run = λ w h. (k h.1).run w h.0 }

  pub signalled-Does : {B : Type 0} (env : Env S B) → Does I (signalled env) (λ _. I) X
  unfolding signalled
  signalled-Does env = record { run = λ w i. i }

-- A failure that nothing can be seen before does not happen.
pub never_exits :
    {S St A X : Type 0} {seen : Observer S X} {I : World S St → Type 0}
    {Q : A → World S St → Type 0} {m : M S St A}
    → Does I m Q (Failed seen (λ _. ⊥))
    → Does I m Q (λ _ _. ⊥)
never_exits {A} {seen} {Q} {m} h = record { run = λ w i. exits (m w) (h.run w i) }
  where
    exits : (r : Outcome A × World _ _) → Holds Q (Failed seen (λ _. ⊥)) r → Holds Q (λ _ _. ⊥) r
    exits (done a, w) q = q
    exits (exited n, w) q = q.holds
    exits (stuck, w) q = q
