-- ===== src/Apps/Waitset.antt =====
-- cpp/waitset
pub mod Publisher
pub mod Subscriber
use zzdds_examples.Base.{ℕ, ◌==◌, Bool, true, false, List, [], ◌∷◌, if◌then◌else◌}
use zzdds_examples.Base.Text.{Text}
use zzdds_examples.Base.Int.{ℤ}

-- `WaitsetSample` of cpp/waitset/idl
pub record WaitsetSample : Type 0 where
  pub count : ℤ
  pub priority : ℤ
  pub message : Text

-- The conditions that are attached: `sc`, `rc_cond`, `qc_cond`, `gc`. The publisher has the first and the last.
pub data Condition : Type 0 where
  status_condition read_condition query_condition guard_condition : Condition

-- A condition's place in the order in which they are attached.
abbrev pub index : Condition → ℕ
index status_condition = 0
index read_condition = 1
index query_condition = 2
index guard_condition = 3

unfoldable pub condition_active : List Condition → Condition → Bool
condition_active [] c = false
condition_active (entry ∷ active) c =
    let more = condition_active active c in if index entry == index c then true else more
