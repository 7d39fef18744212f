-- ===== src/Shape/Topics.antt =====
-- The topics and instances of cpp/shape/src/shape_main.cpp. A topic handle is the name that it was
-- created with.
pub mod Distinct
pub mod Created
use zzdds_examples.Base.{
  ℕ, zero, suc, ◌-◌, ◌==◌, Bool, Option, none, some, List, [], ◌∷◌, ◌++◌, if◌then◌else◌, get_elem?,
}
use zzdds_examples.Base.Text.{Text, codes}
use zzdds_examples.Base.Number.{to_string}
use zzdds_examples.Runtime.Event.{text, create_topic}
use zzdds_examples.Runtime.Program.{M, Env, ◌>>=◌, ◌>>◌, return, create, printf, fail, out_of_range}
use zzdds_examples.Shape.Options.{Options}

pub record ExtraTopics : Type 0 where
  pub topics : List Text
  pub names : List Text

-- Index 0 is the base; past the end of the vector there is nothing.
pub topic_at : Text → ExtraTopics → ℕ → Option Text
topic_at base et i = if i == 0 then some base else get_elem? et.topics (i - 1)

pub name_at : Text → ExtraTopics → ℕ → Option Text
name_at base_name et i = if i == 0 then some base_name else get_elem? et.names (i - 1)

-- `std::string(opts.topic_name) + std::to_string(i)`
abbrev pub extra_name : Text → ℕ → Text
extra_name base i = base ++ to_string i

module _ {S St B : Type 0} (env : Env S B) (topic_name : Text) where
  create_from : ℕ → ℕ → ExtraTopics → M S St (Option ExtraTopics)
  create_from i zero et = return (some et)
  create_from i (suc count) et = do
    let name = extra_name topic_name i
    printf "Create topic: %s\n" (text name ∷ [])
    t ← create env (create_topic name (codes "ShapeType"))
    if t
        then create_from (suc i) count
            record { topics = et.topics ++ name ∷ []; names = et.names ++ name ∷ [] }
        else return none

  pub create_extra_topics : ℕ → M S St (Option ExtraTopics)
  create_extra_topics num_topics = create_from 1 (num_topics - 1) record { topics = []; names = [] }

pub instance_color : Text → ℕ → Text
instance_color base inst = if inst == 0 then base else base ++ to_string inst

module _ {S St : Type 0} where
  -- `v[i]`
  unfoldable pub found : {A : Type 0} → Option A → M S St A
  found none = out_of_range
  found (some a) = return a

  -- `if (!et_opt) { fprintf(stderr, ...); return 1; }`
  unfoldable pub extra : Option ExtraTopics → M S St ExtraTopics
  extra none = fail "FAIL: failed to create extra topics\n" []
  extra (some et) = return et
