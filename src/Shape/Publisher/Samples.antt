-- ===== src/Shape/Publisher/Samples.antt =====
-- What the shape publisher writes.
use zzdds_examples.Base.{ℕ, ◌-◌, ◌^◌, ◌≡◌, ◌⊎◌, false, List, arith}
use zzdds_examples.Base.Text.{Text}
use zzdds_examples.Base.Int.{ℤ, pos, ◌≤ℤ◌, ==ℤ→eq}
use zzdds_examples.Runtime.Program.{World, Env}
use zzdds_examples.Runtime.Invariant.{
  Always, Sound, Always-bind, Always-chain, Always-get, Always-when, Always-when_so, Always-range,
  Always-each, Always-if, emit-Sound, modify-Sound, check-Sound, invoke-Sound, query-Sound,
  Always-return,
}
use zzdds_examples.Shape.Options.{Options}
use zzdds_examples.Shape.Sample.{ShapeType, out_of_bounds, increment}
use zzdds_examples.Shape.Publisher.{
  PubRun, WriterCallback, next_size, grow, paint, place, write_shape, write_set, coherent_round,
  plain_round, write_round, first_shape,
}

-- A size of 1 and more that stays fixed, or one that grows from 1 up to a modulus which an
-- int32_t can exceed by one.
unfoldable pub SizeOption : Options → Type 0
SizeOption opts =
    (pos 1 ≤ℤ opts.shapesize)
    ⊎ ((opts.shapesize ≡ pos 0)
        × (pos 1 ≤ℤ opts.size_modulo)
        × (opts.size_modulo ≤ℤ pos (2 ^ 31 - 2)))

-- The sizes that a run goes through.
pub Sized : Options → ℤ → Type 0
Sized opts size = (pos 1 ≤ℤ size) × (opts.shapesize ≡ pos 0 → size ≤ℤ opts.size_modulo)

pub record Drawable (opts : Options) (st : PubRun) : Type 0 where
  pub inside_x : (pos 0 ≤ℤ st.shape.x) × (st.shape.x ≤ℤ pos 319)
  pub inside_y : (pos 0 ≤ℤ st.shape.y) × (st.shape.y ≤ℤ pos 239)
  pub sized : Sized opts st.shape.shapesize

-- A sample that the subscriber's test of bounds lets pass.
abbrev pub InBounds : ShapeType → Type 0
InBounds s = out_of_bounds s ≡ false

Drawable-InBounds : (opts : Options) (st : PubRun) → Drawable opts st → InBounds st.shape
unfolding out_of_bounds Sized
Drawable-InBounds opts st h = ground arith

next_size-Sized :
    (opts : Options) (size : ℤ)
    → SizeOption opts
    → opts.shapesize ≡ pos 0
    → Sized opts size
    → Sized opts (next_size opts.size_modulo size)
unfolding next_size increment Sized SizeOption
next_size-Sized opts size h e h' = ground arith

module _ (opts : Options) (sizes : SizeOption opts) where
  -- The invariant of a run: the shape in hand and the samples written are within bounds.
  abbrev pub Good : World ShapeType PubRun → Type 0
  Good = Sound (Drawable opts) InBounds

  pub first_shape-Good : Drawable opts record { shape = first_shape opts; printed_matched = false }
  unfolding first_shape Sized SizeOption
  first_shape-Good = record {
    inside_x = ground arith;
    inside_y = ground arith;
    sized = ground arith;
  }

  grow-Good : Always Good Good (grow opts)
  unfolding grow
  grow-Good = Always-when_so _ λ e. modify-Sound _ λ st h. record {
    inside_x = h.inside_x;
    inside_y = h.inside_y;
    sized = next_size-Sized opts _ sizes (==ℤ→eq _ _ e) h.sized;
  }

  paint-Good : (inst : ℕ) → Always Good Good (paint opts inst)
  unfolding paint
  paint-Good inst =
      modify-Sound _
        λ st h. record { inside_x = h.inside_x; inside_y = h.inside_y; sized = h.sized }

  module _ (env : Env ShapeType WriterCallback) where
    place-Good : Always Good Good (place env opts)
    unfolding place
    place-Good = Always-bind (query-Sound env _ tt) λ x. Always-bind (query-Sound env _ tt) λ y.
        modify-Sound _ λ st h. record {
          inside_x = (omega arith, ground arith);
          inside_y = (omega arith, ground arith);
          sized = h.sized;
        }

    write_shape-Good : (ti : ℕ) (name : Text) → Always Good Good (write_shape env opts ti name)
    unfolding write_shape
    write_shape-Good ti name = Always-get λ st.
        Always-bind
          (record {
            run = λ w h.
                (invoke-Sound env _ (rw h.1 at (Drawable-InBounds opts _ h.0.state_ok), tt)).run w
                  h.0;
          })
          λ rc. Always-chain (check-Sound _ _ _) (Always-when _ (emit-Sound _ tt))

    write_set-Good : (ti : ℕ) (name : Text) → Always Good Good (write_set env opts ti name)
    unfolding write_set
    write_set-Good ti name =
        Always-range _
          (λ s. Always-chain place-Good (Always-chain (write_shape-Good ti name) grow-Good)) 0 _

    pub write_round-Good : (names : List Text) → Always Good Good (write_round env opts names)
    unfolding write_round coherent_round plain_round
    write_round-Good names =
        Always-if _
          (Always-bind (invoke-Sound env _ tt) λ rc.
            Always-chain
              (Always-each _
                (λ ti name.
                  Always-range _ (λ inst. Always-chain (paint-Good inst) (write_set-Good ti name)) 0
                    _)
                0 names)
              (Always-bind (invoke-Sound env _ tt) λ rc. Always-return tt))
          (Always-chain place-Good (
            Always-chain
              (Always-each _
                (λ ti name.
                  Always-range _ (λ inst. Always-chain (paint-Good inst) (write_shape-Good ti name))
                    0 _)
                0 names)
              grow-Good))
