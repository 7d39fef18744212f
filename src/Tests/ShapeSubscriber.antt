-- ===== src/Tests/ShapeSubscriber.antt =====
-- Runs of the shape subscriber.
use zzdds_examples.Base.{ℕ, ◌==◌, true, false, [], ◌∷◌, if◌then◌else◌}
use zzdds_examples.Base.Text.{Text, codes}
use zzdds_examples.Base.Int.{pos}
use zzdds_examples.Dds.{InstanceState, Taken, sample}
use zzdds_examples.Runtime.Program.{World}
use zzdds_examples.Apps.Common.Receiver.{NoSample}
use zzdds_examples.Shape.Sample.{ShapeType}
use zzdds_examples.Shape.Subscriber.{SubRun}

abbrev shape : Text → ShapeType
shape color = record {
  color = color;
  x = pos 319;
  y = pos 0;
  shapesize = pos 20;
  additional_payload_size = 0 ∷ 255 ∷ [];
}

abbrev seen : ℕ → Taken ShapeType
seen ih =
    sample record { valid_data = true; instance_state = InstanceState.alive; instance_handle = ih }
      (shape (if ih == 1 then codes "BLUE" else codes "RED"))

abbrev gone : ℕ → Taken ShapeType
gone ih =
    sample
      record {
        valid_data = false;
        instance_state = InstanceState.not_alive_disposed;
        instance_handle = ih;
      }
      (shape (codes "BLUE"))

abbrev key : ℕ → Text
key ih = if ih == 1 then codes "BLUE" else codes "RED"

abbrev unseen : World NoSample SubRun
unseen = record { log = []; state = record { ih_cache = [] } }
