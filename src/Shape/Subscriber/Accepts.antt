-- ===== src/Shape/Subscriber/Accepts.antt =====
-- Which streams of samples the shape subscriber accepts.
use mathlib.Core.Option.{some-injective}
use zzdds_examples.Base.{
  ◌⊎◌, ℕ, ◌==◌, ◌≡◌, refl, sym, ◌∙◌, ap, true, false, Option, none, some, List, [], ◌∷◌, arith, All,
  Bool-cases, inl, inr,
}
use zzdds_examples.Base.Text.{Text, str_eq_iff}
use zzdds_examples.Dds.{Taken, sample, take_error}
use zzdds_examples.Runtime.Event.{samples}
use zzdds_examples.Runtime.Program.{World, M}
use zzdds_examples.Runtime.Contract.{
  Does, At, Failed, bind, chain, given, known, get-Does, return-Does,
}
use zzdds_examples.Runtime.Contract.Seen.{emit-At, modify-At}
use zzdds_examples.Apps.Common.Receiver.{NoSample}
use zzdds_examples.Shape.Sample.{ShapeType, out_of_bounds}
use zzdds_examples.Shape.Subscriber.{
  Cache, find, assign, SubRun, print_not_alive, is_not_alive, is_empty, differs, key_color,
  assert_sample_content, print_sample, accept_sample, take_all,
}

-- The samples of instances whose handles have the colours `key`, where an instance that is gone
-- comes with its key.
unfoldable pub Fits : (ℕ → Text) → Taken ShapeType → Type 0
Fits key (take_error rc) = Unit
Fits key (sample info v) =
    ((info.valid_data ≡ true) × (v.color ≡ key info.instance_handle) × (out_of_bounds v ≡ false))
    ⊎ ((info.valid_data ≡ false)
        × (is_not_alive info.instance_state ≡ true)
        × (is_empty v.color ≡ false))
    ⊎ ((info.valid_data ≡ false) × (is_not_alive info.instance_state ≡ false))

-- What the cache has of a handle is its colour.
abbrev pub Agrees : (ℕ → Text) → Cache → Type 0
Agrees key cache = (ih : ℕ) (c : Text) → find cache ih ≡ some c → c ≡ key ih

==→≡ : (a b : ℕ) → (a == b) ≡ true → a ≡ b
==→≡ a b h = ground arith

assign-Agrees :
    (key : ℕ → Text) (cache : Cache) (h : ℕ)
    → Agrees key cache
    → Agrees key (assign cache h (key h))
unfolding find assign
assign-Agrees key cache h agrees ih c e = elim (Bool-cases (h == ih)) [
  | inl same ↦ sym (some-injective _ _ (rw same at e)) ∙ ap key (==→≡ h ih same)
  | inr different ↦ agrees ih c (rw different at e)
]

same-differs :
    (key : ℕ → Text) (ih : ℕ) (o : Option Text) (color : Text)
    → color ≡ key ih
    → ((c : Text) → o ≡ some c → c ≡ key ih)
    → differs o color ≡ false
same-differs key ih none color e h = refl
same-differs key ih (some c) color e h =
    rw (h c refl, e, (str_eq_iff (key ih) (key ih)).1 refl) refl

module _ (key : ℕ → Text) (topic : Text) where
  -- No line on stderr so far, and a cache that agrees with the keys.
  abbrev pub Fine : World NoSample SubRun → Type 0
  Fine = At samples (λ st _. Agrees key st.ih_cache)

  -- Goes on, and never ends the process.
  abbrev pub GoesOn : {A : Type 0} → (World NoSample SubRun → Type 0) → M NoSample SubRun A → Type 0
  GoesOn I m = Does I m (λ _. Fine) (Failed samples (λ _. ⊥))

  assert-Fine :
      (ih : ℕ) (v : ShapeType)
      → v.color ≡ key ih
      → out_of_bounds v ≡ false
      → GoesOn Fine (assert_sample_content ih v)
  unfolding assert_sample_content
  assert-Fine ih v e inside = bind get-Does λ st.
      given (λ w h. (h.0, rw h.1 at h.0.holds))
        (known λ (agrees : Agrees key st.ih_cache).
          rw (same-differs key ih (find st.ih_cache ih) v.color e (agrees ih), inside)
            (return-Does tt))

  print-Fine : (v : ShapeType) (bytes : List ℕ) → GoesOn Fine (print_sample topic v bytes)
  unfolding print_sample
  print-Fine v [] = emit-At _ refl refl
  print-Fine v (b ∷ bytes) = emit-At _ refl refl

  pub accept-Fine :
      (ih : ℕ) (v : ShapeType)
      → v.color ≡ key ih
      → out_of_bounds v ≡ false
      → GoesOn Fine (accept_sample topic ih v)
  unfolding accept_sample
  accept-Fine ih v e inside = chain (assert-Fine ih v e inside) (
      chain (modify-At _ λ st xs h. rw e (assign-Agrees key st.ih_cache ih h))
        (print-Fine v v.additional_payload_size))

  pub key_color-Fine :
      (ih : ℕ) (v : ShapeType) → is_empty v.color ≡ false → GoesOn Fine (key_color ih v)
  unfolding key_color
  key_color-Fine ih v e = rw e (return-Does v.color)

  pub take-Fine :
      (ts : List (Taken ShapeType)) → All (Fits key) ts → GoesOn Fine (take_all topic ts)
  unfolding take_all Fits print_not_alive
  take-Fine [] fits = return-Does tt
  take-Fine (take_error rc ∷ rest) fits = return-Does tt
  take-Fine (sample info v ∷ rest) (inl (valid, e, inside), fits) =
      rw valid (chain (accept-Fine info.instance_handle v e inside) (take-Fine rest fits))
  take-Fine (sample info v ∷ rest) (inr (inl (invalid, gone, keyed)), fits) =
      rw (invalid, gone)
        (bind (key_color-Fine info.instance_handle v keyed)
          λ color. chain (emit-At _ refl refl) (take-Fine rest fits))
  take-Fine (sample info v ∷ rest) (inr (inr (invalid, other)), fits) =
      rw (invalid, other) (return-Does tt)
