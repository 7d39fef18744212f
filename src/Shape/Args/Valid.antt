-- ===== src/Shape/Args/Valid.antt =====
-- The ranges of the options that `parse_args` accepts.
use zzdds_examples.Base.{
  ◌≡◌, refl, ◌<◌, ◌^◌, ◌⊎◌, inl, inr, Option, none, some, Option-cases, List, [], ◌∷◌, arith,
}
use zzdds_examples.Base.Text.{Text}
use zzdds_examples.Base.Int.{IsI32, IsI64, to_i32-IsI32}
use zzdds_examples.Base.Number.{strtol, strtoul-lt, strtol-IsI64}
use zzdds_examples.Shape.Options.{Options, default_options}
use zzdds_examples.Shape.Args.{
  Switch, Setting, Flag, switch, setting, help, unrecognised, flag_of, set_switch, set_value,
  accepted, parse_loop, parse_args,
}

-- What the C++ types of the members hold, with the two values of the data representation.
pub record IsWellFormed (o : Options) : Type 0 where
  pub domain : o.domain_id < 2 ^ 32
  pub history : IsI32 o.history_depth
  pub deadline : o.deadline_ms < 2 ^ 64
  pub lifespan : o.lifespan_ms < 2 ^ 64
  pub strength : IsI32 o.ownership_strength
  pub representation : (o.data_representation ≡ 1) ⊎ (o.data_representation ≡ 2)
  pub size : IsI32 o.shapesize
  pub write_period : IsI64 o.write_period_ms
  pub read_period : IsI64 o.read_period_ms
  pub iterations : IsI64 o.num_iterations
  pub instances : o.num_instances < 2 ^ 32
  pub payload : o.additional_payload < 2 ^ 32
  pub modulo : IsI32 o.size_modulo
  pub time_filter : o.time_filter_ms < 2 ^ 64
  pub topics : o.num_topics < 2 ^ 32
  pub sample_count : o.coherent_sample_count < 2 ^ 32
  pub announcement : o.periodic_announcement_ms < 2 ^ 32
  pub datafrag : o.datafrag_size < 2 ^ 16

pub default-IsWellFormed : IsWellFormed default_options
default-IsWellFormed = ground arith

set_switch-IsWellFormed :
    (s : Switch) (o : Options) → IsWellFormed o → IsWellFormed (set_switch s o)
unfolding set_switch
set_switch-IsWellFormed Switch.publish o h = ground arith
set_switch-IsWellFormed _ o h = ground arith

set_value-IsWellFormed :
    (s : Setting) (v : Text) (o o' : Options)
    → IsWellFormed o
    → set_value s v o ≡ some o'
    → IsWellFormed o'
unfolding set_value
set_value-IsWellFormed Setting.domain v o o' h e = ground arith
set_value-IsWellFormed _ v o o' h e =
    ground (arith, strtoul-lt v, strtol-IsI64 v, to_i32-IsI32 (strtol v))

flag_cases :
    (f : Flag)
    → ((s : Switch) × (f ≡ switch s))
      ⊎ ((s : Setting) × (f ≡ setting s))
      ⊎ (f ≡ help)
      ⊎ (f ≡ unrecognised)
flag_cases (switch s) = inl (s, refl)
flag_cases (setting s) = inr (inl (s, refl))
flag_cases help = inr (inr (inl refl))
flag_cases unrecognised = inr (inr (inr refl))

parse_loop-IsWellFormed :
    (argv : List Text) (waits : Option Setting) (o o' : Options)
    → IsWellFormed o
    → (parse_loop argv waits o).parsed ≡ accepted o'
    → IsWellFormed o'
unfolding parse_loop
parse_loop-IsWellFormed [] none o o' h e = let q : o ≡ o' = cc in rw q at h
parse_loop-IsWellFormed [] (some s) o o' h e = cc
parse_loop-IsWellFormed (v ∷ rest) (some s) o o' h e = elim (Option-cases (set_value s v o)) [
  | inl bad ↦ cc (rw (bad, parse_loop) at e)
  | inr (o1, good) ↦
      parse_loop-IsWellFormed rest none o1 o' (set_value-IsWellFormed s v o o1 h good)
        (rw (good, parse_loop) at e)
]
parse_loop-IsWellFormed (arg ∷ rest) none o o' h e = elim (flag_cases (flag_of arg)) [
  | inl (s, f) ↦
      parse_loop-IsWellFormed rest none (set_switch s o) o' (set_switch-IsWellFormed s o h)
        (rw (f, parse_loop) at e)
  | inr (inl (s, f)) ↦ parse_loop-IsWellFormed rest (some s) o o' h (rw (f, parse_loop) at e)
  | inr (inr (inl f)) ↦ cc (rw (f, parse_loop) at e)
  | inr (inr (inr f)) ↦ parse_loop-IsWellFormed rest none o o' h (rw (f, parse_loop) at e)
]

-- Whatever the arguments, accepted options lie in the ranges of their C++ types, no conversion of
-- strtol or strtoul to a narrower type leaves them, and the data representation is 1 or 2.
pub parse_args-IsWellFormed :
    (argv : List Text) (o : Options) → (parse_args argv).parsed ≡ accepted o → IsWellFormed o
unfolding parse_args
parse_args-IsWellFormed argv o e =
    parse_loop-IsWellFormed argv none default_options o default-IsWellFormed e
