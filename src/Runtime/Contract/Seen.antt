-- ===== src/Runtime/Contract/Seen.antt =====
-- The rules for single operations: what is seen of an event, and what it does to the state.
use Prim.Native.String.{String}
use mathlib.Core.List.{append-nil}
use zzdds_examples.Base.{◌≡◌, refl, Bool, true, false, List, [], ◌∷◌, ◌++◌, arith}
use zzdds_examples.Dds.{is_ok}
use zzdds_examples.Runtime.Event.{
  Arg, Call, Event, called, failure_of, Observer, observed, failures, Log,
}
use zzdds_examples.Runtime.Program.{
  World, Env, return, emit, modify, fail, check, create, invoke, invoke_with, query, must_create,
  must_return,
}
use zzdds_examples.Runtime.Contract.{Does, At, Failed, Turns, Covers, bind, weaken}

module _ {S St : Type 0} where
  module _ {X : Type 0} {seen : Observer S X} {J : St → List X → Type 0} {K : List X → Type 0} where
    -- An event that is not seen and is no failure.
    pub emit-At :
        (e : Event S)
        → seen.see e ≡ []
        → failure_of e ≡ 0
        → Does (At seen J) (emit e) (λ _. At seen J) (Failed {St = St} seen K)
    unfolding emit failures observed
    emit-At e none quiet = record {
      run = λ w h. record { quiet = omega (arith, h.quiet); holds = rw (none, append-nil) h.holds };
    }

    pub modify-At :
        (f : St → St)
        → ((st : St) (xs : List X) → J st xs → J (f st) xs)
        → Does (At seen J) (modify f) (λ _. At seen J) (Failed {St = St} seen K)
    unfolding modify
    modify-At f k = record {
      run = λ w h. record { quiet = h.quiet; holds = k w.state (observed seen w.log) h.holds };
    }

    pub fail-At :
        {A : Type 0} {Q : A → World S St → Type 0} (s : String) (args : List Arg)
        → Covers J K
        → Does (At seen J) (fail s args) Q (Failed seen K)
    unfolding fail failures observed
    fail-At s args lost = record {
      run = λ w h. record {
        status = refl;
        once = omega (arith, h.quiet);
        holds = rw (seen.blind s args, append-nil) (lost w.state (observed seen w.log) h.holds);
      };
    }

    pub check-At :
        (b : Bool) (s : String) (args : List Arg)
        → Covers J K
        → Does (At seen J) (check b s args) (λ _ w. At seen J w × (b ≡ true)) (Failed seen K)
    unfolding check return
    check-At true s args lost = record { run = λ w h. (h, refl) }
    check-At false s args lost = record {
      run = (fail-At {A = Unit {0}} {Q = λ _ w. At seen J w × (false ≡ true)} s args lost).run;
    }

  -- A call that is not seen keeps what holds of the others.
  pub unwritten :
      {X : Type 0} (seen : Observer S X) (J : St → List X → Type 0) (c : Call S)
      → seen.see (called c) ≡ []
      → Turns seen J J c
  unwritten seen J c e st ws h = rw (e, append-nil) h

  module _ {X : Type 0} {seen : Observer S X} {J J' : St → List X → Type 0} where
    -- An event, and a change of the state, that lead from `J` to `J'`.
    pub emit-Turns :
        {K : List X → Type 0} (e : Event S)
        → failure_of e ≡ 0
        → ((st : St) (xs : List X) → J st xs → J' st (xs ++ seen.see e))
        → Does (At seen J) (emit e) (λ _. At seen J') (Failed {St = St} seen K)
    unfolding emit failures observed
    emit-Turns e quiet k = record {
      run = λ w h. record {
        quiet = omega (arith, h.quiet);
        holds = k w.state (observed seen w.log) h.holds;
      };
    }

    pub modify-Turns :
        {K : List X → Type 0} (f : St → St)
        → ((st : St) (xs : List X) → J st xs → J' (f st) xs)
        → Does (At seen J) (modify f) (λ _. At seen J') (Failed {St = St} seen K)
    unfolding modify
    modify-Turns f k = record {
      run = λ w h. record { quiet = h.quiet; holds = k w.state (observed seen w.log) h.holds };
    }

    called-At :
        (c : Call S)
        → Turns seen J J' c
        → (w : World S St) → At seen J w
        → At seen J' (record w { log = called c ∷ w.log })
    unfolding failures observed
    called-At c k w h = record {
      quiet = omega (arith, h.quiet);
      holds = k w.state (observed seen w.log) h.holds;
    }

  module _ {B X : Type 0} (env : Env S B) {seen : Observer S X} {J J' : St → List X → Type 0}
      {K : List X → Type 0} where
    pub create-At :
        (c : Call S)
        → Turns seen J J' c
        → Does (At seen J) (create env c) (λ _. At seen J') (Failed {St = St} seen K)
    unfolding create
    create-At c k = record { run = called-At c k }

    pub invoke-At :
        (c : Call S)
        → Turns seen J J' c
        → Does (At seen J) (invoke env c) (λ _. At seen J') (Failed {St = St} seen K)
    unfolding invoke
    invoke-At c k = record { run = called-At c k }

    pub invoke_with-At :
        {A : Type 0} (answer : Log S → Call S → A) (c : Call S)
        → Turns seen J J' c
        → Does (At seen J) (invoke_with env answer c) (λ _. At seen J') (Failed {St = St} seen K)
    unfolding invoke_with
    invoke_with-At answer c k = record { run = called-At c k }

    -- The answer is one that the library may give.
    pub answer-At :
        {A : Type 0} (answer : Log S → Call S → A) (P : A → Type 0) (c : Call S)
        → Turns seen J J' c
        → ((log : Log S) → P (answer log c))
        → Does
            (At seen J)
            (invoke_with env answer c)
            (λ r w. At seen J' w × P r.1)
            (Failed {St = St} seen K)
    unfolding invoke_with
    answer-At answer P c k h = record { run = λ w i. (called-At c k w i, h w.log) }

    pub query-At :
        (c : Call S)
        → Turns seen J J' c
        → Does (At seen J) (query env c) (λ _. At seen J') (Failed {St = St} seen K)
    unfolding query
    query-At c k = record { run = called-At c k }

    pub must_return-At :
        (c : Call S) (s : String) (args : List Arg)
        → Turns seen J J' c
        → Covers J' K
        → Does (At seen J) (must_return env c s args) (λ _. At seen J') (Failed {St = St} seen K)
    unfolding must_return
    must_return-At c s args k lost =
        bind (invoke-At c k) (λ rc. weaken (check-At (is_ok rc) s args lost) (λ a w h. h.0))

    pub must_create-At :
        (c : Call S) (s : String) (args : List Arg)
        → Turns seen J J' c
        → Covers J' K
        → Does (At seen J) (must_create env c s args) (λ _. At seen J') (Failed {St = St} seen K)
    unfolding must_create
    must_create-At c s args k lost =
        bind (create-At c k) (λ there. weaken (check-At there s args lost) (λ a w h. h.0))

  -- The same for calls that are not seen.
  module _ {B X : Type 0} (env : Env S B) {seen : Observer S X} {J : St → List X → Type 0}
      {K : List X → Type 0} where
    pub must_create-keeps :
        (c : Call S) (s : String) (args : List Arg)
        → seen.see (called c) ≡ []
        → Covers J K
        → Does (At seen J) (must_create env c s args) (λ _. At seen J) (Failed {St = St} seen K)
    must_create-keeps c s args e lost = must_create-At env c s args (unwritten seen J c e) lost

    pub must_return-keeps :
        (c : Call S) (s : String) (args : List Arg)
        → seen.see (called c) ≡ []
        → Covers J K
        → Does (At seen J) (must_return env c s args) (λ _. At seen J) (Failed {St = St} seen K)
    must_return-keeps c s args e lost = must_return-At env c s args (unwritten seen J c e) lost
