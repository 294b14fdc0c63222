-- ===== src/SoftwareTask/Catalog.antt =====
-- internal/services/softwaretask/manager.go: the lookups in the table of software, the rows of
-- internal/models/software.go. The columns that the task manager does not use are left out.
use oneinstack_panel.Common.{
  ℕ, Bool, true, false, not, ◌&&◌, ◌||◌, Option, none, some, List, [], ◌∷◌, any, select, first_by,
  ltb, ◌==◌, if◌then◌else◌,
}
use oneinstack_panel.Text.{Text, codes, text_eq, is_empty, trim_space, to_lower}

pub record Software : Type 0 where
  pub id : ℕ
  pub name : Text
  pub key : Text
  pub component : Text
  pub version : Text
  pub install_version : Text
  pub installed : Bool
  pub catalog_managed : Bool
  pub catalog_visible : Bool
  pub installable : Bool
  pub install_time : ℕ

abbrev pub normal : Text → Text
normal s = to_lower (trim_space s)

-- A Boolean column in descending order, and the next criterion.
abbrev bool_desc : Bool → Bool → Bool → Bool
bool_desc true false next = true
bool_desc false true next = false
bool_desc _ _ next = next

abbrev id_desc : Software → Software → Bool
id_desc r s = ltb s.id r.id

-- `First` without an order: by the primary key.
abbrev pub id_asc : Software → Software → Bool
id_asc r s = ltb r.id s.id

-- `Order("catalog_managed DESC, catalog_visible DESC, id DESC")`
abbrev by_catalog : Software → Software → Bool
by_catalog r s =
    bool_desc r.catalog_managed s.catalog_managed
      (bool_desc r.catalog_visible s.catalog_visible (id_desc r s))

-- `Order("install_time DESC, id DESC")`
abbrev by_install_time : Software → Software → Bool
by_install_time r s =
    ltb s.install_time r.install_time || (r.install_time == s.install_time && id_desc r s)

-- `Order("catalog_visible DESC, id DESC")`
abbrev by_visible : Software → Software → Bool
by_visible r s = bool_desc r.catalog_visible s.catalog_visible (id_desc r s)

abbrev is_one_of : Text → List Text → Bool
is_one_of s words = any (λ w. text_eq s w) words

-- The keys that have a component of their own where the catalog has no row.
component_of_word : Text → Option Text
component_of_word key =
    if text_eq key (codes "webserver")
    then some (codes "nginx")
    else if text_eq key (codes "db")
    then some (codes "mysql")
    else if is_one_of key (
        codes "redis"
        ∷ codes "php"
        ∷ codes "java"
        ∷ codes "openresty"
        ∷ codes "phpmyadmin"
        ∷ codes "firewalld"
        ∷ [])
    then some key
    else none

-- `componentForKey`
unfoldable pub component_for_key : List Software → Text → Option Text
unfolding component_of_word trim_space to_lower
component_for_key rows key =
    elim (first_by by_catalog
      (select (λ r. text_eq r.key (normal key) && not (is_empty r.component)) rows)) [
        | some r ↦ some (normal r.component)
        | none ↦ component_of_word (normal key)
      ]

key_of_word : Text → Option Text
key_of_word word =
    if is_one_of word (codes "nginx" ∷ codes "webserver" ∷ [])
    then some (codes "webserver")
    else if is_one_of word (codes "mysql" ∷ codes "db" ∷ [])
    then some (codes "db")
    else if text_eq word (codes "redis")
    then some (codes "redis")
    else if text_eq word (codes "php")
    then some (codes "php")
    else none

-- `softwareKeyForUninstall`
unfoldable pub software_key_for_uninstall : List Software → Text → Option Text
unfolding key_of_word trim_space to_lower
software_key_for_uninstall rows value =
    let word = normal value in
    elim (first_by id_asc
      (select (λ r. (text_eq r.key word || text_eq r.component word) && r.installed) rows)) [
        | some r ↦ some r.key
        | none ↦
            if text_eq word (codes "firewalld") then some (codes "firewalld") else key_of_word word
      ]

-- The key of a row that was found, where it is not blank.
abbrev key_of_row : Option Software → Option Text
key_of_row none = none
key_of_row (some r) = if is_empty (normal r.key) then none else some (normal r.key)

-- `softwareKeyForService`
unfoldable pub software_key_for_service : List Software → Text → Option Text
unfolding key_of_word trim_space to_lower
software_key_for_service rows value =
    let word = normal value in
    let named = λ (r : Software). text_eq r.key word || text_eq r.component word in
    elim (key_of_row (first_by by_install_time (select (λ r. r.installed && named r) rows))) [
      | some key ↦ some key
      | none ↦
          elim (key_of_row
            (first_by by_visible (select (λ r. r.catalog_managed && named r) rows))) [
              | some key ↦ some key
              | none ↦
                  if text_eq word (codes "php-fpm") then some (codes "php") else key_of_word word
            ]
    ]

pub data CatalogVerdict : Type 0 where
  allowed not_published removed disabled : CatalogVerdict

-- `validateCatalogInstall`: the revision of the catalog's state row, where there is one.
unfoldable pub validate_catalog_install : Option Text → List Software → Text → Text → CatalogVerdict
unfolding trim_space
validate_catalog_install none rows key version = allowed
validate_catalog_install (some revision) rows key version =
    if is_empty (trim_space revision)
    then allowed
    else elim (first_by id_asc
        (select (λ r. text_eq r.key key && text_eq r.version version) rows)) [
          | none ↦ not_published
          | some r ↦
              if not r.catalog_managed || not r.catalog_visible
              then removed
              else if not r.installable
              then disabled
              else allowed
        ]

abbrev pub exclusive_groups : List (List Text)
exclusive_groups =
    (codes "nginx" ∷ codes "tengine" ∷ codes "openresty" ∷ codes "caddy" ∷ codes "apache" ∷ [])
    ∷ (codes "mysql" ∷ codes "mariadb" ∷ codes "percona" ∷ [])
    ∷ []

abbrev conflicts : Text → List Text → List Software → Bool
conflicts component group rows =
    any (λ r. r.installed && is_one_of r.component group && not (text_eq r.component component))
      rows

-- The loop over the groups: the first one that has the component decides.
abbrev has_conflict : Text → List (List Text) → List Software → Bool
has_conflict component [] rows = false
has_conflict component (group ∷ groups) rows =
    let rest = has_conflict component groups rows in
    if is_one_of component group then conflicts component group rows else rest

-- `validateExclusiveComponentInstall`: whether another component of the group is installed.
unfoldable pub is_excluded : Text → List Software → Bool
unfolding trim_space to_lower
is_excluded component rows = has_conflict (normal component) exclusive_groups rows

-- `First` on the installed row of a key.
abbrev pub find_installed : Text → List Software → Option Software
find_installed key rows = first_by id_asc (select (λ r. text_eq r.key key && r.installed) rows)
