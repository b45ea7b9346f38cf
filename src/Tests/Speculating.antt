-- ===== src/Tests/Speculating.antt =====
-- Instances of the theorems on speculation.
use fncs.Base.{◌≡◌, arith, refl, false}
use fncs.Speculation.{
  Speculation, increasing, start_speculation, get_next_spec_time, speculation_failed,
  worth_speculation,
}
use fncs.Speculation.Horizon.{speculation_failed_lem}

abbrev child : Speculation
child = record { strategy = increasing; spec_diff = 4; speculation_time = 0 }

speculation_failed_lem_example :
    (get_next_spec_time 10 (speculation_failed 13 (start_speculation 10 child)) ≡ 13)
    × (worth_speculation 10 13 (speculation_failed 13 (start_speculation 10 child)) ≡ false)
speculation_failed_lem_example = speculation_failed_lem child 10 13 refl (omega arith) (omega arith)
