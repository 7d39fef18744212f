-- ===== src/Runtime/Invariant.antt =====
-- Invariants of every world that a program reaches, however it ends and however much fuel it has.
use Prim.Native.String.{String}
use zzdds_examples.Base.{
  ℕ, zero, suc, ◌≡◌, refl, Bool, true, false, List, [], ◌∷◌, if◌then◌else◌, All, All-append,
}
use zzdds_examples.Dds.{is_ok}
use zzdds_examples.Runtime.Event.{Arg, Call, Event, failed, called, sample_of, written, observed}
use zzdds_examples.Runtime.Program.{
  Outcome, done, exited, stuck, World, M, Env, resume, ◌>>=◌, ◌>>◌, return, exit, out_of_fuel,
  out_of_range, emit, get, modify, fail, check, create, invoke, query, signalled, must_create,
  must_return, for_range, for_each, when,
}
use zzdds_examples.Runtime.Wait.{handle_all, deliver}

-- From a world with `I` the program gets to a world with `P`.
pub record Always {S St A : Type 0} (I P : World S St → Type 0) (m : M S St A) : Type 0 where
  pub run : (w : World S St) → I w → P (m w).1

-- `Q` holds of the program's state and `R` of each sample that it has written.
pub record Sound {S St : Type 0} (Q : St → Type 0) (R : S → Type 0) (w : World S St) : Type 0 where
  pub state_ok : Q w.state
  pub written_ok : All R (written w.log)

resume-Always :
    {S St A B : Type 0} {P : World S St → Type 0} {f : A → M S St B} (r : Outcome A × World S St)
    → P r.1
    → ((a : A) → Always P P (f a))
    → P (resume r f).1
unfolding resume
resume-Always (done a, w) h k = (k a).run w h
resume-Always (exited n, w) h k = h
resume-Always (stuck, w) h k = h

module _ {S St : Type 0} {I P : World S St → Type 0} where
  pub Always-bind :
      {A B : Type 0} {m : M S St A} {f : A → M S St B}
      → Always I P m
      → ((a : A) → Always P P (f a))
      → Always I P (m >>= f)
  unfolding ◌>>=◌
  Always-bind {m} h k = record { run = λ w i. resume-Always (m w) (h.run w i) k }

  pub Always-chain :
      {B : Type 0} {m : M S St (Unit {0})} {k : M S St B}
      → Always I P m
      → Always P P k
      → Always I P (m >> k)
  unfolding ◌>>◌
  Always-chain {m} {k} h h' = record {
    run = λ w i. resume-Always {f = λ _. k} (m w) (h.run w i) (λ _. h');
  }

  pub Always-get :
      {B : Type 0} {f : St → M S St B}
      → ((st : St) → Always (λ w. I w × (w.state ≡ st)) P (f st))
      → Always I P (get >>= f)
  unfolding ◌>>=◌ get resume
  Always-get k = record { run = λ w i. (k w.state).run w (i, refl) }

  pub Always-given :
      {A : Type 0} {I' : World S St → Type 0} {m : M S St A}
      → ((w : World S St) → I w → I' w)
      → Always I' P m
      → Always I P m
  Always-given k h = record { run = λ w i. h.run w (k w i) }

module _ {S St : Type 0} {P : World S St → Type 0} where
  pub Always-return : {A : Type 0} (a : A) → Always P P (return a)
  unfolding return
  Always-return a = record { run = λ w h. h }

  pub Always-exit : {A : Type 0} (n : ℕ) → Always P P (exit {A = A} n)
  unfolding exit
  Always-exit n = record { run = λ w h. h }

  pub Always-out_of_fuel : {A : Type 0} → Always P P (out_of_fuel {A = A})
  unfolding out_of_fuel
  Always-out_of_fuel = record { run = λ w h. h }

  pub Always-out_of_range : {A : Type 0} → Always P P (out_of_range {A = A})
  unfolding out_of_range
  Always-out_of_range = record { run = λ w h. h }

  pub Always-when : (b : Bool) {m : M S St (Unit {0})} → Always P P m → Always P P (when b m)
  unfolding when
  Always-when true h = h
  Always-when false h = Always-return tt

  -- The program under the test may use it.
  pub Always-when_so :
      (b : Bool) {m : M S St (Unit {0})} → (b ≡ true → Always P P m) → Always P P (when b m)
  unfolding when
  Always-when_so true h = h refl
  Always-when_so false h = Always-return tt

  pub Always-if :
      (b : Bool) {A : Type 0} {m k : M S St A}
      → Always P P m
      → Always P P k
      → Always P P (if b then m else k)
  Always-if true h h' = h
  Always-if false h h' = h'

  pub Always-range :
      (body : ℕ → M S St (Unit {0}))
      → ((i : ℕ) → Always P P (body i))
      → (i count : ℕ) → Always P P (for_range body i count)
  unfolding for_range
  Always-range body h i zero = Always-return tt
  Always-range body h i (suc count) = Always-chain (h i) (Always-range body h (suc i) count)

  pub Always-each :
      {X : Type 0} (body : ℕ → X → M S St (Unit {0}))
      → ((i : ℕ) (x : X) → Always P P (body i x))
      → (i : ℕ) (xs : List X) → Always P P (for_each body i xs)
  unfolding for_each
  Always-each body h i [] = Always-return tt
  Always-each body h i (x ∷ xs) = Always-chain (h i x) (Always-each body h (suc i) xs)

  module _ {B : Type 0} (env : Env S B) (handle : B → M S St (Unit {0}))
      (h : (b : B) → Always P P (handle b)) where
    Always-handle_all : (bs : List B) → Always P P (handle_all env handle bs)
    unfolding handle_all
    Always-handle_all [] = Always-return tt
    Always-handle_all (b ∷ bs) = Always-chain (h b) (Always-handle_all bs)

    pub Always-deliver : Always P P (deliver env handle)
    unfolding deliver
    Always-deliver = record { run = λ w i. (Always-handle_all (env.arrivals w.log)).run w i }

module _ {S St : Type 0} {Q : St → Type 0} {R : S → Type 0} where
  logged :
      (e : Event S)
      → All R (sample_of e)
      → (w : World S St) → Sound Q R w
      → Sound Q R (record w { log = e ∷ w.log })
  unfolding observed
  logged e h w i = record {
    state_ok = i.state_ok;
    written_ok = All-append R (written w.log) (sample_of e) i.written_ok h;
  }

  pub emit-Sound :
      (e : Event S) → All R (sample_of e) → Always (Sound Q R) (Sound Q R) (emit {St = St} e)
  unfolding emit
  emit-Sound e h = record { run = logged e h }

  pub modify-Sound :
      (f : St → St)
      → ((st : St) → Q st → Q (f st))
      → Always (Sound Q R) (Sound Q R) (modify {S = S} f)
  unfolding modify
  modify-Sound f h = record {
    run = λ w i. record { state_ok = h w.state i.state_ok; written_ok = i.written_ok };
  }

  pub fail-Sound :
      {A : Type 0} (s : String) (args : List Arg)
      → Always (Sound Q R) (Sound Q R) (fail {S = S} {St = St} {A = A} s args)
  unfolding fail
  fail-Sound s args = record { run = logged (failed s args) tt }

  pub check-Sound :
      (b : Bool) (s : String) (args : List Arg)
      → Always (Sound Q R) (Sound Q R) (check {S = S} {St = St} b s args)
  unfolding check
  check-Sound true s args = Always-return tt
  check-Sound false s args = fail-Sound s args

  module _ {B : Type 0} (env : Env S B) where
    pub signalled-Sound : Always (Sound Q R) (Sound Q R) (signalled {St = St} env)
    unfolding signalled
    signalled-Sound = record { run = λ w h. h }

    module _ (c : Call S) (fits : All R (sample_of (called c))) where
      pub create-Sound : Always (Sound Q R) (Sound Q R) (create {St = St} env c)
      unfolding create
      create-Sound = record { run = logged (called c) fits }

      pub invoke-Sound : Always (Sound Q R) (Sound Q R) (invoke {St = St} env c)
      unfolding invoke
      invoke-Sound = record { run = logged (called c) fits }

      pub query-Sound : Always (Sound Q R) (Sound Q R) (query {St = St} env c)
      unfolding query
      query-Sound = record { run = logged (called c) fits }

      pub must_create-Sound :
          (s : String) (args : List Arg)
          → Always (Sound Q R) (Sound Q R) (must_create {St = St} env c s args)
      unfolding must_create
      must_create-Sound s args = Always-bind create-Sound (λ there. check-Sound there s args)

      pub must_return-Sound :
          (s : String) (args : List Arg)
          → Always (Sound Q R) (Sound Q R) (must_return {St = St} env c s args)
      unfolding must_return
      must_return-Sound s args = Always-bind invoke-Sound (λ rc. check-Sound (is_ok rc) s args)
