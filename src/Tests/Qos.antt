-- ===== src/Tests/Qos.antt =====
-- The QoS of two command lines.
use zzdds_examples.Base.{◌≡◌, ◌↔◌, ◌<◌, ◌*◌, true, [], arith}
use zzdds_examples.Shape.Options.{Options, default_options}
use zzdds_examples.Shape.Qos.{duration_from_ms, writer_qos, reader_qos}
use zzdds_examples.Shape.Qos.Match.{
  nanoseconds, duration_from_ms_exact, incompatible, Agree, compatible_iff_Agree,
}
use zzdds_examples.Tests.Worlds.{defaults}

duration_from_ms_exact_example :
    (nanoseconds (duration_from_ms 2500) ≡ 2500 * 1000000)
    × ((duration_from_ms 2500).nanosec < 1000000000)
duration_from_ms_exact_example = duration_from_ms_exact 2500 (omega arith)

abbrev fast : Options
fast = record default_options { deadline_ms = 100; durability = b'l' }

abbrev slow : Options
slow = record default_options { deadline_ms = 2500; best_effort = true }

compatible_iff_Agree_example :
    (incompatible (writer_qos fast defaults.writer) (reader_qos slow defaults.reader) ≡ [])
    ↔ Agree fast slow
compatible_iff_Agree_example =
    compatible_iff_Agree fast slow defaults.writer defaults.reader (ground arith) (omega arith)
      (omega arith)
