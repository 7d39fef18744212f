-- ===== src/Apps/HelloWorld.antt =====
-- cpp/hello_world
pub mod Publisher
pub mod Subscriber
use zzdds_examples.Base.Text.{Text}
use zzdds_examples.Base.Int.{ℤ}

-- `HelloWorld` of cpp/hello_world/idl/hello_world.idl
pub record HelloWorld : Type 0 where
  pub count : ℤ
  pub message : Text
