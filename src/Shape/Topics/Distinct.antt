-- ===== src/Shape/Topics/Distinct.antt =====
-- No two topics and no two instances of a run have the same name.
use zzdds_examples.Base.{ℕ, zero, suc, ◌==◌, ◌≡◌, ◌≢◌, refl, sym, ◌∙◌, false, [], ◌++◌, arith}
use mathlib.Core.List.{append-nil}
use zzdds_examples.Base.Text.{Text, append_cancel}
use zzdds_examples.Base.Number.{to_string, to_string_injective, to_string-ne-nil}
use zzdds_examples.Shape.Topics.{instance_color}

append_ne : (base s : Text) → s ≢ [] → base ++ s ≢ base
append_ne base s ne e = ne (append_cancel base s [] (e ∙ sym (append-nil base)))

pub numbered : (i : ℕ) → (suc i == 0) ≡ false
numbered i = ground arith

pub instance_color-suc :
    (base : Text) (i : ℕ) → instance_color base (suc i) ≡ base ++ to_string (suc i)
unfolding instance_color
instance_color-suc base i = rw (numbered i) refl

-- Instances with different numbers have different colours, which are their keys.
pub instance_color_injective :
    (base : Text) (i j : ℕ) → instance_color base i ≡ instance_color base j → i ≡ j
unfolding instance_color
instance_color_injective base zero zero e = refl
instance_color_injective base zero (suc j) e =
    absurd (append_ne base _ (to_string-ne-nil (suc j)) (sym (e ∙ instance_color-suc base j)))
instance_color_injective base (suc i) zero e =
    absurd (append_ne base _ (to_string-ne-nil (suc i)) (sym (instance_color-suc base i) ∙ e))
instance_color_injective base (suc i) (suc j) e =
    to_string_injective (suc i) (suc j)
      (append_cancel base _ _ (sym (instance_color-suc base i) ∙ e ∙ instance_color-suc base j))
