-- ===== src/Shape/Subscriber/Forgotten.antt =====
-- What the shape subscriber makes of an instance that it first hears of when it is gone.
use zzdds_examples.Base.Text.{Text}
