-- ===== src/SoftwareTask/Steps.antt =====
-- Any order of the steps of the manager of internal/services/softwaretask, its workers and its callers.
use oneinstack_panel.Common.{ℕ, Bool, true, List, [], ◌∷◌}
use oneinstack_panel.Text.{Text}
use oneinstack_panel.SoftwareTask.{SoftwareTask}
use oneinstack_panel.SoftwareTask.Reports.{Report}
use oneinstack_panel.SoftwareTask.Catalog.{Software}
use oneinstack_panel.SoftwareTask.Submit.{InstallRequest}
use oneinstack_panel.SoftwareTask.World.{Manager, submit, after}
use oneinstack_panel.SoftwareTask.Cancel.{request_cancel, settle_cancel, touch}
use oneinstack_panel.SoftwareTask.Workers.{
  take, register, check, lock, resolve, execute, Outcome, return_executor, deliver, release,
}
use oneinstack_panel.SoftwareTask.Restart.{RecoveryInspection, restart}

-- A step, with its time, its task and its arguments. `write_software` is what an executor or another
-- service does to the table of software.
pub data Step : Type 0 where
  submit_step : ℕ → ℕ → ℕ → InstallRequest → Step
  take_step : Step
  register_step check_step release_step : ℕ → Step
  lock_step resolve_step request_cancel_step settle_cancel_step touch_step : ℕ → ℕ → Step
  execute_step : ℕ → ℕ → Report → Step
  return_step : ℕ → Outcome → Step
  deliver_step : ℕ → ℕ → Step
  write_software : List Software → Step
  stop_step : Step
  restart_step : ℕ → (SoftwareTask → RecoveryInspection) → Step

unfoldable pub step : (Text → Bool) → Step → Manager → Manager
unfolding submit take register check lock resolve execute return_executor deliver release
    request_cancel settle_cancel touch restart
step is_uuid (submit_step id now by r) m = after (submit is_uuid id now by r m)
step is_uuid take_step m = take m
step is_uuid (register_step id) m = register id m
step is_uuid (check_step id) m = check id m
step is_uuid (lock_step now id) m = lock now id m
step is_uuid (resolve_step now id) m = resolve now id m
step is_uuid (execute_step now id r) m = execute now id r m
step is_uuid (return_step id o) m = return_executor id o m
step is_uuid (deliver_step now id) m = deliver now id m
step is_uuid (release_step id) m = release id m
step is_uuid (request_cancel_step now id) m = request_cancel now id m
step is_uuid (settle_cancel_step now id) m = settle_cancel now id m
step is_uuid (touch_step now id) m = record m { db = touch now id m.db }
step is_uuid (write_software rows) m = record m { software = rows }
step is_uuid stop_step m = record m { stopping = true }
step is_uuid (restart_step now inspector) m = restart now inspector m

unfoldable pub run : (Text → Bool) → List Step → Manager → Manager
run is_uuid [] m = m
run is_uuid (s ∷ ss) m = run is_uuid ss (step is_uuid s m)
