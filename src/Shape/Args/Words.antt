-- ===== src/Shape/Args/Words.antt =====
-- How `parse_loop` reads the words that `Args.RoundTrip` prints for an option; the lemma for each option
-- stands in one of the files below.
pub mod Switches
pub mod Numbers
pub mod Letters
use zzdds_examples.Base.{
  ℕ, ◌==◌, ◌<◌, ◌^◌, ◌≡◌, refl, sym, ap, ◌∙◌, ◌⊎◌, Bool, true, false, Option, none, some, List, [],
  ◌∷◌, arith, if◌then◌else◌,
}
use zzdds_examples.Base.Text.{Text, codes}
use zzdds_examples.Base.Int.{ℤ, IsI32, IsI64, to_u16, to_u32, to_i32, to_i32_self}
use zzdds_examples.Base.Number.{
  strtoul, strtol, to_string, int_to_string, strtoul-to_string, strtol-int_to_string,
  converts-to_string,
}
use zzdds_examples.Shape.Options.{Options}
use zzdds_examples.Shape.Args.{
  Switch, Setting, switch, setting, flag_of, set_switch, set_value, parse_loop, first_byte,
}

abbrev pub switch_word : Bool → Text → List Text → List Text
switch_word b name rest = if b then name ∷ rest else rest

abbrev pub option_word : Option Text → Text → List Text → List Text
option_word none name rest = rest
option_word (some v) name rest = name ∷ v ∷ rest

-- A `char` option, whose byte 0 is the empty argument.
abbrev pub char_word : ℕ → Text
char_word c = if c == 0 then [] else c ∷ []

pub switch_step :
    (s : Switch) (name : Text) (b : Bool) (rest : List Text) (a a' : Options)
    → flag_of name ≡ switch s
    → (b ≡ true → set_switch s a ≡ a')
    → (b ≡ false → a ≡ a')
    → parse_loop (switch_word b name rest) none a ≡ parse_loop rest none a'
unfolding parse_loop
switch_step s name true rest a a' f on off =
    rw (f, parse_loop) (ap (parse_loop rest none) (on refl))
switch_step s name false rest a a' f on off = ap (parse_loop rest none) (off refl)

pub value_step :
    (s : Setting) (name v : Text) (rest : List Text) (a a' : Options)
    → flag_of name ≡ setting s
    → set_value s v a ≡ some a'
    → parse_loop (name ∷ v ∷ rest) none a ≡ parse_loop rest none a'
unfolding parse_loop
value_step s name v rest a a' f e = rw (f, parse_loop) (rw (e, parse_loop) refl)

pub u32_word : (n : ℕ) → n < 2 ^ 32 → to_u32 (strtoul (to_string n)) ≡ n
u32_word n h = rw (strtoul-to_string n (omega arith)) (omega arith)

pub i32_word : (z : ℤ) → IsI32 z → to_i32 (strtol (int_to_string z)) ≡ z
i32_word z h = rw (strtol-int_to_string z (ground arith)) (to_i32_self z h)

pub char_word_lem : (c other : ℕ) → (c ≡ 0 → other ≡ 0) → first_byte (char_word c) other ≡ c
unfolding first_byte
char_word_lem c other h = ground arith
