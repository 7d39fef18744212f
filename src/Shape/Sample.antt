-- ===== src/Shape/Sample.antt =====
-- `ShapeType` of cpp/shape/idl/shape.idl and what the applications of cpp/shape/src/shape_main.cpp
-- print of it.
use zzdds_examples.Base.{ℕ, zero, suc, ◌||◌, Bool, List, [], ◌∷◌}
use zzdds_examples.Base.Text.{Text}
use zzdds_examples.Base.Int.{ℤ, pos, negsuc, ltb_ℤ, to_i32}
use zzdds_examples.Runtime.Event.{Arg, int, text}

pub record ShapeType : Type 0 where
  pub color : Text
  pub x : ℤ
  pub y : ℤ
  pub shapesize : ℤ
  pub additional_payload_size : List ℕ

-- A value-initialised ShapeType.
abbrev pub empty_shape : ShapeType
empty_shape = record {
  color = [];
  x = pos 0;
  y = pos 0;
  shapesize = pos 0;
  additional_payload_size = [];
}

-- The second test of `assert_sample_content`.
unfoldable pub out_of_bounds : ShapeType → Bool
out_of_bounds s =
    ltb_ℤ s.x (pos 0)
    || ltb_ℤ (pos 319) s.x
    || ltb_ℤ s.y (pos 0)
    || ltb_ℤ (pos 239) s.y
    || ltb_ℤ s.shapesize (pos 1)

-- The arguments of "%-10s %-10s %03d %03d [%d]\n"
abbrev pub shape_line : Text → ShapeType → List Arg
shape_line topic s = text topic ∷ text s.color ∷ int s.x ∷ int s.y ∷ int s.shapesize ∷ []

-- `int32_t z; z++`, which wraps.
unfoldable pub increment : ℤ → ℤ
increment (pos n) = to_i32 (pos (suc n))
increment (negsuc zero) = pos 0
increment (negsuc (suc n)) = negsuc n

-- `additional_payload_size.assign(n, 0); additional_payload_size.back() = 255;`
pub payload : ℕ → List ℕ
payload zero = []
payload (suc zero) = 255 ∷ []
payload (suc (suc n)) = 0 ∷ payload (suc n)
