-- ===== src/Coordinator/Starting.antt =====
-- What starts a run in firmware/src/sonar_experiment_coordinator.c.
use air_born_sonar.Common.{◌≡◌, ◌≢◌, ◌⊎◌, Bool, true, false, arith, pos}
use air_born_sonar.Identity.{test_ready, consume_test}
use air_born_sonar.ControlService.{can_start, set_running}
use air_born_sonar.Scan360
use air_born_sonar.MeasurementCycle.{idle, stopped, wait_buffer, start}
use air_born_sonar.Coordinator.Round.{Panel, Task, start_run}

-- The key that starts a run does so exactly if there is no health fault, a number of positions is set,
-- the cycle is idle or stopped, the settings can start and a test is prepared. The run then uses the
-- positions, begins the scan anew, has consumed the test and marks the settings as running, so that
-- neither can serve for another start. Otherwise the cycle stays in its state, and so do the service and
-- the scan.
pub start_run_lem :
    {H : Type 0} (panel : Panel H) (fatal : Bool) (t : Task) (h : H)
    → let t' = (start_run panel fatal (t, h)).0 in
      (fatal ≡ false)
        × (t.positions ≢ pos 0)
        × ((t.cycle.state ≡ idle) ⊎ (t.cycle.state ≡ stopped))
        × (can_start t.lab.service ≡ true)
        × (test_ready t.lab.service.identity ≡ true)
        × (t'.cycle.state ≡ wait_buffer)
        × (t'.cycle.steps ≡ t.positions)
        × (t'.lab.scan.moves_started ≡ 0)
        × (t'.lab.scan.positions ≡ t.lab.scan.positions)
        × (test_ready t'.lab.service.identity ≡ false)
        × (can_start t'.lab.service ≡ false)
      ⊎ ((fatal ≡ true)
          ⊎ ((t.positions ≡ pos 0)
              ⊎ ((t.cycle.state ≢ idle) × (t.cycle.state ≢ stopped)
                  ⊎ ((can_start t.lab.service ≡ false)
                      ⊎ (test_ready t.lab.service.identity ≡ false)))))
        × (t' ≡ t)
unfolding start_run start set_running consume_test test_ready can_start Scan360.begin
start_run_lem panel fatal t h = ground arith
