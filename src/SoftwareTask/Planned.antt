-- ===== src/SoftwareTask/Planned.antt =====
-- What `submit` has found where it goes on to write.
use oneinstack_panel.Common.{
  ℕ, ◌≡◌, ◌≢◌, ◌⊎◌, inl, inr, refl, sym, Bool, true, false, not, Option, none, some, List, arith,
  ◌==◌,
}
use oneinstack_panel.Text.{Text, is_empty, trim_space}
use oneinstack_panel.SoftwareTask.{Operation, SoftwareTask}
use oneinstack_panel.SoftwareTask.Catalog.{Software, component_for_key, find_installed}
use oneinstack_panel.SoftwareTask.Submit.{
  InstallRequest, SubmitError, Checked, ok, err, ◌>>=◌, ◌>>◌, guard, found, Plan, plan, has_active,
  check_configuration, check_install, resolve, requested_operation,
}

pub Checked-cases :
    {A : Type 0} (c : Checked A) → ((e : SubmitError) × (c ≡ err e)) ⊎ ((a : A) × (c ≡ ok a))
Checked-cases (err e) = inl (e, refl)
Checked-cases (ok a) = inr (a, refl)

pub >>=-ok :
    {A B : Type 0} (m : Checked A) (f : A → Checked B) (b : B)
    → (m >>= f) ≡ ok b
    → (a : A) × (m ≡ ok a) × (f a ≡ ok b)
>>=-ok (ok a) f b h = (a, refl, h)
>>=-ok (err e) f b h = absurd (cc h)

pub guard-ok :
    {B : Type 0} (test : Bool) (e : SubmitError) (k : Checked B) (b : B)
    → (guard test e >> k) ≡ ok b
    → (test ≡ true) × (k ≡ ok b)
guard-ok true e k b h = (refl, h)
guard-ok false e k b h = absurd (cc h)

found-ok :
    {A B : Type 0} (o : Option A) (e : SubmitError) (k : A → Checked B) (b : B)
    → (found o e >>= k) ≡ ok b
    → (a : A) × (o ≡ some a) × (k a ≡ ok b)
found-ok none e k b h = absurd (cc h)
found-ok (some a) e k b h = (a, refl, h)

-- The checks that a plan has passed, and what it is made of.
pub record IsPlanned (is_uuid : Text → Bool) (stops : Bool) (revision : Option Text)
    (software : List Software) (tasks : List SoftwareTask) (by : ℕ) (r : InstallRequest) (p : Plan)
    : Type 0 where
  pub running : stops ≡ false
  pub asked : Operation
  pub known : requested_operation r ≡ some asked
  pub configured : check_configuration is_uuid asked r ≡ ok tt
  pub user : by ≢ 0
  pub key : p.key ≡ trim_space r.key
  pub has_key : is_empty p.key ≡ false
  pub component : component_for_key software p.key ≡ some p.component
  pub installable :
      check_install revision software asked p.key (trim_space r.version) p.component ≡ ok tt
  pub free : has_active p.component tasks ≡ false
  pub resolved :
      resolve asked (trim_space r.version) (find_installed p.key software)
      ≡ ok (p.operation, p.version)

pub plan-IsPlanned :
    (is_uuid : Text → Bool) (stops : Bool) (revision : Option Text) (software : List Software)
    (tasks : List SoftwareTask) (by : ℕ) (r : InstallRequest) (p : Plan)
    → plan is_uuid stops revision software tasks by r ≡ ok p
    → IsPlanned is_uuid stops revision software tasks by r p
unfolding plan
plan-IsPlanned is_uuid stops revision software tasks by r p e0 =
    let (running, e1) = guard-ok (not stops) _ _ p e0 in
    let (op, known, e2) = found-ok (requested_operation r) _ _ p e1 in
    let (u, configured, e3) = >>=-ok (check_configuration is_uuid op r) _ p e2 in
    let (has, e4) = guard-ok (not (is_empty (trim_space r.key))) _ _ p e3 in
    let (user, e5) = guard-ok (not (by == 0)) _ _ p e4 in
    let (component, named, e6) =
      found-ok (component_for_key software (trim_space r.key)) _ _ p e5 in
    let (v, installable, e7) =
      >>=-ok
        (check_install revision software op (trim_space r.key) (trim_space r.version) component) _ p
        e6 in
    let (free, e8) = guard-ok (not (has_active component tasks)) _ _ p e7 in
    let ((operation, wanted), resolved, e9) =
      >>=-ok (resolve op (trim_space r.version) (find_installed (trim_space r.key) software)) _ p
        e8 in
    let is : record {
      component = component;
      key = trim_space r.key;
      operation = operation;
      version = wanted;
    }
        ≡ p =
      ground arith in
    rw (sym is) (record {
      running = ground arith;
      asked = op;
      known = known;
      configured = configured;
      user = ground arith;
      key = refl;
      has_key = ground arith;
      component = named;
      installable = installable;
      free = ground arith;
      resolved = resolved;
    })
