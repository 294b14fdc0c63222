-- ===== src/KeyTrust/History.antt =====
-- Refreshes of internal/services/panelupdate/keytrust.go, one after another.
use mathlib.Core.Path.{subst}
use oneinstack_panel.Common.{
  ℕ, ◌≡◌, ◌⊎◌, inl, inr, refl, sym, ap, some_inj, Bool, true, Option, none, some, List, [], ◌∷◌,
  arith, Bool-cases,
}
use oneinstack_panel.Text.{is_empty, trim_space}
use oneinstack_panel.KeyTrust.{KeysetDocument, TrustState, Crypto, find_record, clone_trusted_keys}
use oneinstack_panel.KeyTrust.Refresh.{
  Config, Refreshed, refused, refreshed, stored, file_after, accept_fetched, Attempt, run_refreshes,
  is_invalid, refresh_key_trust,
}
use oneinstack_panel.KeyTrust.Forward.{IsForward, IsAccepted, IsAnswer, accept-IsAnswer}

-- What a refresh stands for: a refusal writes nothing, a panel without a URL has the keys of its configuration, and
-- any other answer is one to a keyset that was downloaded and accepted.
abbrev pub IsRefresh :
    Crypto
    → ℕ
    → Config
    → Option KeysetDocument
    → Option TrustState
    → Option TrustState
    → Refreshed
    → Type 0
IsRefresh c now config fetched s file (refused e) = stored file (refused e) ≡ file
IsRefresh c now config fetched s file (refreshed keys result write) =
    (is_empty (trim_space config.key_status_url) ≡ true)
      × (keys ≡ clone_trusted_keys config.trusted_keys)
      × (file_after file write ≡ file)
    ⊎ (d : KeysetDocument) × (fetched ≡ some d)
      × IsAccepted c now (clone_trusted_keys config.trusted_keys) d s keys file
          (file_after file write)

answer-IsRefresh :
    (c : Crypto) (now : ℕ) (config : Config) (d : KeysetDocument) (s file : Option TrustState)
    (o : Refreshed)
    → IsAnswer c now (clone_trusted_keys config.trusted_keys) d s file o
    → IsRefresh c now config (some d) s file o
answer-IsRefresh c now config d s file (refused e) k = k
answer-IsRefresh c now config d s file (refreshed keys result write) k = inr (d, refl, k)

fetched-IsRefresh :
    (c : Crypto) (now : ℕ) (config : Config) (saves : Bool) (s file : Option TrustState)
    (fetched : Option KeysetDocument)
    → IsRefresh c now config fetched s file
        (accept_fetched c now saves (clone_trusted_keys config.trusted_keys) s fetched)
fetched-IsRefresh c now config saves s file none = refl
fetched-IsRefresh c now config saves s file (some d) =
    answer-IsRefresh c now config d s file _
      (accept-IsAnswer c now saves (clone_trusted_keys config.trusted_keys) d s file)

-- Whatever the file holds when it is written: a refresh that is refused leaves it as it was. One that is not refused has
-- no URL, writes nothing, and trusts the keys of the configuration, or has downloaded a valid keyset with a signature
-- that verifies under a key that the configuration and the loaded state trusted, and then trusts each key of the
-- keyset that is not revoked and no other key than those of the configuration that the keyset does not name; the file
-- stays, or it gets a state with a higher revision than the loaded one and with each of its key ids.
pub refresh_key_trust-IsRefresh :
    (c : Crypto) (now : ℕ) (config : Config) (fetched : Option KeysetDocument) (saves : Bool)
    (s file : Option TrustState)
    → IsRefresh c now config fetched s file (refresh_key_trust c now config fetched saves s)
unfolding refresh_key_trust
refresh_key_trust-IsRefresh c now config fetched saves s file =
    elim (Bool-cases (is_empty (trim_space config.key_status_url))) [
      | inl blank ↦ rw (blank, refresh_key_trust) (inl (blank, refl, refl))
      | inr url ↦ elim (Bool-cases (is_empty (trim_space config.trust_state_path))) [
        | inl blank ↦ rw (url, blank, refresh_key_trust) refl
        | inr path ↦ elim (Bool-cases (is_invalid s)) [
          | inl broken ↦ rw (url, path, broken, refresh_key_trust) refl
          | inr sound ↦
              rw (url, path, sound, refresh_key_trust)
                (fetched-IsRefresh c now config saves s file fetched)
        ]
      ]
    ]

IsForward-stored :
    (c : Crypto) (now : ℕ) (config : Config) (fetched : Option KeysetDocument) (s : TrustState)
    (o : Refreshed)
    → IsRefresh c now config fetched (some s) (some s) o
    → IsForward s (stored (some s) o)
IsForward-stored c now config fetched s (refused e) k = inl k
IsForward-stored c now config fetched s (refreshed keys result write) (inl (blank, same, k)) = inl k
IsForward-stored c now config fetched s (refreshed keys result write) (inr (d, is, k)) = k.forward

IsForward-trans :
    (s t : TrustState) (s' : Option TrustState)
    → IsForward s (some t)
    → IsForward t s'
    → IsForward s s'
IsForward-trans s t s' (inl same) k = subst (λ u. IsForward u s') (some_inj same) k
IsForward-trans s t s' (inr h) (inl same) = subst (IsForward s) (sym same) (inr h)
IsForward-trans s t s' (inr (v, is, (less, keep))) (inr (u, last, (more, keep'))) =
    let one : t ≡ v = some_inj is in
    inr (
      u,
      last,
      (
        omega (arith, less, ap (λ x. x.revision) one, more),
        λ id r here.
            let (q, found) = keep id r here in
            keep' id q (subst (λ x. find_record id x.keys ≡ some q) (sym one) found),
      ),
    )

-- A state that has gone on is still there.
IsForward-cases :
    (s : TrustState) (s' : Option TrustState) → IsForward s s' → (t : TrustState) × (s' ≡ some t)
IsForward-cases s s' (inl same) = (s, same)
IsForward-cases s s' (inr (t, is, k)) = (t, is)

-- Whatever refreshes come, each after the end of the one before, a stored state stays as it is, or it has got a higher revision and has kept every key id.
pub run_refreshes-IsForward :
    (c : Crypto) (attempts : List Attempt) (s : TrustState)
    → IsForward s (run_refreshes c attempts (some s))
unfolding run_refreshes
run_refreshes-IsForward c [] s = inl refl
run_refreshes-IsForward c (a ∷ rest) s =
    let after = stored (some s) (refresh_key_trust c a.now a.config a.fetched a.saves (some s)) in
    let once : IsForward s after =
      IsForward-stored c a.now a.config a.fetched s _
        (refresh_key_trust-IsRefresh c a.now a.config a.fetched a.saves (some s) (some s)) in
    let (t, is) = IsForward-cases s after once in
    subst (λ s'. IsForward s (run_refreshes c rest s')) (sym is)
      (IsForward-trans s t (run_refreshes c rest (some t)) (subst (IsForward s) is once)
        (run_refreshes-IsForward c rest t))
