-- ===== src/Runtime/Program.antt =====
-- The monad of the models: a log, a state, and an end by an exit status. A return from main and a
-- call of exit are both `exited`; `stuck` is a loop whose fuel has run out, or an access out of
-- range.
use Prim.Native.String.{String}
use zzdds_examples.Base.{ℕ, zero, suc, Bool, true, false, List, [], ◌∷◌, if◌then◌else◌}
use zzdds_examples.Base.Int.{ℤ}
use zzdds_examples.Dds.{ReturnCode, is_ok, Defaults, TopicData, ParticipantConfig}
use zzdds_examples.Runtime.Event.{Arg, Call, Event, printed, failed, called, slept, Log}

pub data Outcome (A : Type 0) : Type 0 where
  done : A → Outcome A
  exited : ℕ → Outcome A
  stuck : Outcome A

pub record World (S St : Type 0) : Type 0 where
  pub log : Log S
  pub state : St

-- `S` the samples, `St` the program's own state, `A` the result.
abbrev pub M : Type 0 → Type 0 → Type 0 → Type 0
M S St A = World S St → Outcome A × World S St

-- The environment: what each call answers, given all that went before, and which callbacks the
-- library's threads have run since the program last looked at its shared state.
pub record Env (S B : Type 0) : Type 0 where
  pub defaults : Defaults
  pub creates : Log S → Call S → Bool
  pub returns : Log S → Call S → ReturnCode
  pub number : Log S → Call S → ℕ
  pub arrivals : Log S → List B
  pub handles : Log S → Call S → List ℕ
  pub key_of : Log S → Call S → ℤ
  pub topic_data : Log S → Call S → TopicData
  pub participant_config : Log S → Call S → ParticipantConfig
  pub interrupted : Log S → Bool

unfoldable pub resume :
    {S St A B : Type 0} → Outcome A × World S St → (A → M S St B) → Outcome B × World S St
resume (done a, w) f = f a w
resume (exited n, w) f = (exited n, w)
resume (stuck, w) f = (stuck, w)

infixl 5 ◌>>=◌ ◌>>◌
unfoldable pub ◌>>=◌ : {S St A B : Type 0} → M S St A → (A → M S St B) → M S St B
◌>>=◌ m f w = resume (m w) f

unfoldable pub ◌>>◌ : {S St B : Type 0} → M S St (Unit {0}) → M S St B → M S St B
◌>>◌ m k w = resume (m w) (λ _. k)

module _ {S St : Type 0} where
  unfoldable pub return : {A : Type 0} → A → M S St A
  return a w = (done a, w)

  -- `return n` in main, and `exit(n)`.
  unfoldable pub exit : {A : Type 0} → ℕ → M S St A
  exit n w = (exited n, w)

  unfoldable pub out_of_fuel : {A : Type 0} → M S St A
  out_of_fuel w = (stuck, w)

  unfoldable pub out_of_range : {A : Type 0} → M S St A
  out_of_range w = (stuck, w)

  unfoldable pub null_pointer : {A : Type 0} → M S St A
  null_pointer w = (stuck, w)

  unfoldable pub emit : Event S → M S St (Unit {0})
  emit e w = (done tt, record w { log = e ∷ w.log })

  unfoldable pub get : M S St St
  get w = (done w.state, w)

  unfoldable pub modify : (St → St) → M S St (Unit {0})
  modify f w = (done tt, record w { state = f w.state })

  abbrev pub printf : String → List Arg → M S St (Unit {0})
  printf s args = emit (printed s args)

  abbrev pub usleep : ℕ → M S St (Unit {0})
  usleep us = emit (slept us)

  -- A line on stderr and the exit status 1.
  unfoldable pub fail : {A : Type 0} → String → List Arg → M S St A
  fail s args w = (exited 1, record w { log = failed s args ∷ w.log })

  unfoldable pub check : Bool → String → List Arg → M S St (Unit {0})
  check true s args = return tt
  check false s args = fail s args

  module _ {B : Type 0} (env : Env S B) where
    -- A call that gives a pointer, which may be null.
    unfoldable pub create : Call S → M S St Bool
    create c w = (done (env.creates w.log c), record w { log = called c ∷ w.log })

    -- A call that gives a return code.
    unfoldable pub invoke : Call S → M S St ReturnCode
    invoke c w = (done (env.returns w.log c), record w { log = called c ∷ w.log })

    -- A call that gives a return code and fills in an argument.
    unfoldable pub invoke_with :
        {A : Type 0} → (Log S → Call S → A) → Call S → M S St (ReturnCode × A)
    invoke_with answer c w =
        (done (env.returns w.log c, answer w.log c), record w { log = called c ∷ w.log })

    -- A call that gives a number: a status count, a handle, a clock or rand().
    unfoldable pub query : Call S → M S St ℕ
    query c w = (done (env.number w.log c), record w { log = called c ∷ w.log })

    -- `g_all_done`: a signal has come.
    unfoldable pub signalled : M S St Bool
    signalled w = (done (env.interrupted w.log), w)

    -- `if (!create(...)) { fprintf(stderr, ...); return 1; }`
    unfoldable pub must_create : Call S → String → List Arg → M S St (Unit {0})
    must_create c s args = do there ← create c; check there s args

    -- `if (call(...) != RETCODE_OK) { fprintf(stderr, ...); return 1; }`
    unfoldable pub must_return : Call S → String → List Arg → M S St (Unit {0})
    must_return c s args = do rc ← invoke c; check (is_ok rc) s args

-- `for (i = i; i < i + count; i++) body(i);`
unfoldable pub for_range : {S St : Type 0} → (ℕ → M S St (Unit {0})) → ℕ → ℕ → M S St (Unit {0})
for_range body i zero = return tt
for_range body i (suc count) = do body i; for_range body (suc i) count

-- `for (i = i; …; i++) body(i, xs[i]);` to the end of `xs`.
unfoldable pub for_each :
    {S St X : Type 0} → (ℕ → X → M S St (Unit {0})) → ℕ → List X → M S St (Unit {0})
for_each body i [] = return tt
for_each body i (x ∷ xs) = do body i x; for_each body (suc i) xs

-- `if (b) m;`
unfoldable pub when : {S St : Type 0} → Bool → M S St (Unit {0}) → M S St (Unit {0})
when b m = if b then m else return tt

-- All of the above, for a run at a concrete environment.
unfoldable pub operations : Unit {0}
unfolding resume ◌>>=◌ ◌>>◌ return exit out_of_fuel out_of_range null_pointer emit get modify fail
    check create invoke invoke_with query signalled must_create must_return for_range for_each when
operations = tt
