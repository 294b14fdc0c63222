-- ===== src/SoftwareTask/Submit.antt =====
-- internal/services/softwaretask/manager.go: what `submit` checks.
use oneinstack_panel.Common.{
  ℕ, Bool, true, false, not, ◌&&◌, ◌||◌, Option, none, some, List, [], ◌∷◌, any, leb, ◌==◌, length,
  if◌then◌else◌,
}
use oneinstack_panel.Text.{Text, codes, text_eq, is_empty, trim_space, byte_len}
use oneinstack_panel.SoftwareTask.{Operation, SoftwareTask, is_terminal}
use oneinstack_panel.SoftwareTask.Catalog.{
  Software, CatalogVerdict, allowed, normal, component_for_key, validate_catalog_install,
  is_excluded, find_installed,
}

-- What `submit` reads of a request; a map is a list of its pairs.
pub record InstallRequest : Type 0 where
  pub operation : Text
  pub key : Text
  pub version : Text
  pub revision : Text
  pub previous_configuration : List (Text × Text)
  pub configuration : List (Text × Text)
  pub restore_from_id : Text

pub data SubmitError : Type 0 where
  stopping unsupported_operation invalid_configuration mismatched_configuration invalid_restore :
      SubmitError
  unexpected_configuration missing_key missing_user unsupported_software not_in_catalog :
      SubmitError
  excluded component_active not_installed missing_version wrong_version storage_failed queue_full :
      SubmitError

pub data Checked (A : Type 0) : Type 0 where
  ok : A → Checked A
  err : SubmitError → Checked A

infixl 5 ◌>>=◌ ◌>>◌
abbrev pub ◌>>=◌ : {A B : Type 0} → Checked A → (A → Checked B) → Checked B
ok a >>= f = f a
err e >>= f = err e

abbrev pub ◌>>◌ : {B : Type 0} → Checked (Unit {0}) → Checked B → Checked B
m >> k = m >>= λ _. k

abbrev pub guard : Bool → SubmitError → Checked (Unit {0})
guard true e = ok tt
guard false e = err e

-- `isServiceOperation`, `isRuntimeOperation`, and the two others that `submit` takes, on a trimmed
-- and lowered text.
unfoldable pub operation_of : Text → Option Operation
operation_of op =
    if text_eq op (codes "install")
    then some Operation.install
    else if text_eq op (codes "uninstall")
    then some Operation.uninstall
    else if text_eq op (codes "start")
    then some Operation.start
    else if text_eq op (codes "stop")
    then some Operation.stop
    else if text_eq op (codes "restart")
    then some Operation.restart
    else if text_eq op (codes "reload")
    then some Operation.reload
    else if text_eq op (codes "configure")
    then some Operation.configure
    else none

-- The operation of a request: an empty one is an installation.
abbrev pub requested_operation : InstallRequest → Option Operation
requested_operation r =
    operation_of (if is_empty (normal r.operation) then codes "install" else normal r.operation)

abbrev pub is_lower_hex : ℕ → Bool
is_lower_hex c = (leb b'0' c && leb c b'9') || (leb b'a' c && leb c b'f')

abbrev pub all : (ℕ → Bool) → Text → Bool
all test [] = true
all test (c ∷ s) = test c && all test s

abbrev is_lower : ℕ → Bool
is_lower c = leb b'a' c && leb c b'z'

abbrev is_alphanumeric : ℕ → Bool
is_alphanumeric c = is_lower c || (leb b'A' c && leb c b'Z') || (leb b'0' c && leb c b'9')

-- `len(key) < 1 || len(key) > 64 || …`: a letter, then letters and digits, so that each rune is a byte.
abbrev pub is_field_name : Text → Bool
is_field_name [] = false
is_field_name (c ∷ s) = leb (byte_len (c ∷ s)) 64 && is_lower c && all is_alphanumeric s

abbrev is_plain : ℕ → Bool
is_plain c = not (c == 0) && not (c == 0x0D) && not (c == 0x0A)

abbrev pub is_field_value : Text → Bool
is_field_value s = leb (byte_len s) 128 && all is_plain s

abbrev pub all_fields : List (Text × Text) → Bool
all_fields [] = true
all_fields ((k, v) ∷ rest) = is_field_name k && is_field_value v && all_fields rest

-- `validateConfigurationTaskPayload`
unfoldable pub is_valid_payload : Text → List (Text × Text) → Bool
is_valid_payload revision values =
    byte_len revision == 64
    && all is_lower_hex revision
    && leb 1 (length values)
    && leb (length values) 32
    && all_fields values

abbrev pub has_key : Text → List (Text × Text) → Bool
has_key k values = any (λ p. text_eq p.0 k) values

abbrev keys_within : List (Text × Text) → List (Text × Text) → Bool
keys_within [] right = true
keys_within ((k, v) ∷ left) right = has_key k right && keys_within left right

-- `sameConfigurationKeys`
unfoldable pub same_configuration_keys : List (Text × Text) → List (Text × Text) → Bool
same_configuration_keys left right = length left == length right && keys_within left right

abbrev pub is_configure : Operation → Bool
is_configure Operation.configure = true
is_configure _ = false

abbrev pub is_uninstall : Operation → Bool
is_uninstall Operation.uninstall = true
is_uninstall _ = false

-- The checks of the configuration that a request brings; `uuid.Parse` is given.
unfoldable pub check_configuration : (Text → Bool) → Operation → InstallRequest → Checked Unit
unfolding is_valid_payload same_configuration_keys
check_configuration is_uuid Operation.configure r = do
  guard (is_valid_payload r.revision r.configuration) invalid_configuration
  guard (is_valid_payload r.revision r.previous_configuration) invalid_configuration
  guard (same_configuration_keys r.previous_configuration r.configuration) mismatched_configuration
  guard (is_empty r.restore_from_id || is_uuid r.restore_from_id) invalid_restore
check_configuration is_uuid op r =
    guard
      (is_empty r.revision
        && length r.previous_configuration == 0
        && length r.configuration == 0
        && is_empty r.restore_from_id)
      unexpected_configuration

abbrev pub found : {A : Type 0} → Option A → SubmitError → Checked A
found none e = err e
found (some a) e = ok a

abbrev is_allowed : CatalogVerdict → Bool
is_allowed allowed = true
is_allowed _ = false

-- The catalog's checks of an installation.
unfoldable pub check_install :
    Option Text → List Software → Operation → Text → Text → Text → Checked Unit
unfolding validate_catalog_install is_excluded
check_install revision software Operation.install key version component = do
  guard (is_allowed (validate_catalog_install revision software key version)) not_in_catalog
  guard (not (is_excluded component software)) excluded
check_install revision software op key version component = ok tt

-- `Where("component = ? AND status IN ?", …).Count` above 0
abbrev pub has_active : Text → List SoftwareTask → Bool
has_active component ts = any (λ t. text_eq t.component component && not (is_terminal t.status)) ts

abbrev pub installed_version : Software → Text
installed_version s =
    if is_empty (trim_space s.install_version)
    then trim_space s.version
    else trim_space s.install_version

-- The version of a task on installed software: the installed one.
unfoldable pub version_on : Operation → Text → Option Software → Checked Text
version_on op version none = err not_installed
version_on op version (some s) =
    let have = installed_version s in
    let want = if is_empty version then have else version in
    do
      guard (is_uninstall op || not (is_empty want)) missing_version
      guard (is_empty have || text_eq want have) wrong_version
      ok want

-- The operation and the version that the task gets.
unfoldable pub resolve : Operation → Text → Option Software → Checked (Operation × Text)
unfolding version_on
resolve Operation.install version installed = do
  guard (not (is_empty version)) missing_version
  ok (elim installed [ none ↦ Operation.install | some s ↦ Operation.upgrade ], version)
resolve op version installed = do want ← version_on op version installed; ok (op, want)

-- What `submit` finds out before it writes.
pub record Plan : Type 0 where
  pub component : Text
  pub key : Text
  pub operation : Operation
  pub version : Text

unfoldable pub plan :
    (Text → Bool)
    → Bool
    → Option Text
    → List Software
    → List SoftwareTask
    → ℕ
    → InstallRequest
    → Checked Plan
unfolding trim_space operation_of check_configuration component_for_key check_install resolve
plan is_uuid stops revision software tasks requested_by r =
    let key = trim_space r.key in
    let version = trim_space r.version in
    do
      guard (not stops) stopping
      op ← found (requested_operation r) unsupported_operation
      check_configuration is_uuid op r
      guard (not (is_empty key)) missing_key
      guard (not (requested_by == 0)) missing_user
      component ← found (component_for_key software key) unsupported_software
      check_install revision software op key version component
      guard (not (has_active component tasks)) component_active
      (operation, wanted) ← resolve op version (find_installed key software)
      ok (record { component = component; key = key; operation = operation; version = wanted })
