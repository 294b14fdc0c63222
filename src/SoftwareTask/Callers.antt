-- ===== src/SoftwareTask/Callers.antt =====
-- internal/services/softwaretask/manager.go: the calls that make the requests of `submit`.
use oneinstack_panel.Common.{ℕ, Bool, not, ◌||◌, Option, none, some, List, [], if◌then◌else◌}
use oneinstack_panel.Text.{Text, codes, text_eq, trim_space}
use oneinstack_panel.SoftwareTask.Catalog.{
  normal, software_key_for_uninstall, software_key_for_service,
}
use oneinstack_panel.SoftwareTask.Submit.{
  InstallRequest, unsupported_software, unsupported_operation,
}
use oneinstack_panel.SoftwareTask.World.{Manager, Submitted, refused, submit}

-- A request without a configuration.
abbrev plain_request : Text → Text → Text → InstallRequest
plain_request operation key version = record {
  operation = operation;
  key = key;
  version = version;
  revision = [];
  previous_configuration = [];
  configuration = [];
  restore_from_id = [];
}

-- The request goes on to `submit` with the key, or there is none.
abbrev with_key : Option Text → (Text → Submitted) → Manager → Submitted
with_key none go m = refused unsupported_software m
with_key (some key) go m = go key

module _ (is_uuid : Text → Bool) (id now requested_by : ℕ) where
  -- `Submit`
  unfoldable pub submit_install : InstallRequest → Manager → Submitted
  unfolding submit
  submit_install r m =
      submit is_uuid id now requested_by (record r { operation = codes "install" }) m

  -- `SubmitUninstallWithParameters`
  unfoldable pub submit_uninstall : Text → Text → Manager → Submitted
  unfolding submit software_key_for_uninstall
  submit_uninstall name version m =
      with_key (software_key_for_uninstall m.software name)
        (λ key.
          submit is_uuid id now requested_by (plain_request (codes "uninstall") key version) m)
        m

  -- `isServiceOperation`
  abbrev pub is_service_operation : Text → Bool
  is_service_operation value =
      let op = normal value in
      text_eq op (codes "start")
      || text_eq op (codes "stop")
      || text_eq op (codes "restart")
      || text_eq op (codes "reload")

  -- `SubmitServiceAction`
  unfoldable pub submit_service_action : Text → Text → Manager → Submitted
  unfolding submit software_key_for_service trim_space
  submit_service_action component action m =
      with_key (software_key_for_service m.software component)
        (λ key.
          if not (is_service_operation (normal action))
          then refused unsupported_operation m
          else submit is_uuid id now requested_by (plain_request (normal action) key []) m)
        m

  -- `SubmitConfiguration`
  unfoldable pub submit_configuration :
      Text → Text → List (Text × Text) → List (Text × Text) → Text → Manager → Submitted
  unfolding submit software_key_for_service trim_space
  submit_configuration component revision previous values restore_from_id m =
      with_key (software_key_for_service m.software component)
        (λ key.
          submit is_uuid id now requested_by
            (record (plain_request (codes "configure") key []) {
              revision = trim_space revision;
              previous_configuration = previous;
              configuration = values;
              restore_from_id = trim_space restore_from_id;
            })
            m)
        m
