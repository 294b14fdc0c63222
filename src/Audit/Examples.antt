-- ===== src/Audit/Examples.antt =====
-- Runs of the audit on a small log, and the theorems at that log. The signer of these runs puts a
-- letter before the encoding, which is a list of the fields that change.
use oneinstack_panel.Common.{
  ℕ, zero, suc, ◌≡◌, ◌↔◌, refl, inl, inr, true, none, some, [], ◌∷◌, ◌++◌, arith,
}
use oneinstack_panel.Common.Int.{pos, negsuc}
use oneinstack_panel.Text.{Text, codes}
use oneinstack_panel.Audit.{genesis_hash, EventInput, AuditDb, Signer}
use oneinstack_panel.Audit.Normalize.{sanitize, normalize}
use oneinstack_panel.Audit.Normalize.Bounds.{
  IsClean, IsStorable, sanitize-IsClean, normalize-IsStorable,
}
use oneinstack_panel.Audit.Chain.{ok, verify, signature_invalid, head_invalid}
use oneinstack_panel.Audit.Chain.Linked.{IsIntact, IsLink}
use oneinstack_panel.Audit.Chain.Verified.{verify-valid_iff}
use oneinstack_panel.Audit.Chain.History.{payloads, verify-determines_history}
use oneinstack_panel.Audit.Append.{append, next_event, signed_state, Fate, committed, busy}
use oneinstack_panel.Audit.Append.Extends.{extended}
use oneinstack_panel.Audit.Append.Attempts.{recorded, append-IsIntact, append_total, append-verify}
use oneinstack_panel.Audit.Cleanup.{cleanup_before, CleanupResult}
use oneinstack_panel.Audit.Cleanup.Retained.{IsRetained, cleanup_before-IsRetained}

letter-ne-nil : (p : Text) → Path Text (b's' ∷ p) [] → ⊥
letter-ne-nil p h = cc

abbrev letter_signer : Signer
letter_signer = record {
  sign = λ p. b's' ∷ p;
  encode_event = λ p. p.sequence ∷ p.created_at ∷ (p.action ++ p.previous_hash);
  encode_checkpoint = λ n h. n ∷ h;
  encode_state = λ n h. n ∷ h;
  upper_rune = λ r. r;
  sign_nonempty = letter-ne-nil;
}

abbrev empty_db : AuditDb
empty_db = record { events = []; checkpoint = none; state = none; next_id = 1 }

abbrev login : EventInput
login = record {
  request_id = codes "r-1";
  event_type = [];
  action = codes " user.login ";
  method = codes "post";
  route = codes "/v1/login";
  path = codes "/v1/login";
  status = pos 200;
  outcome = codes "SUCCESS";
  sensitive = true;
  user_id = pos 1;
  username = codes "admin";
  auth_mode = codes "password";
  remote_ip = codes "10.0.0.1";
  user_agent = codes "curl";
  content_length = negsuc 0;
  duration_ms = pos 12;
  message = [];
  created_at = some 50;
}

-- The database is busy in the first of the four attempts.
abbrev one_busy : ℕ → Fate
one_busy zero = busy
one_busy (suc zero) = busy
one_busy (suc (suc zero)) = committed
one_busy (suc (suc (suc n))) = busy

empty_db-IsIntact : IsIntact letter_signer empty_db
empty_db-IsIntact = record { base = tt; linked = tt; head = refl }

-- The log after one event, and after two.
abbrev one_event : AuditDb
one_event = extended letter_signer 60 empty_db (recorded letter_signer 60 empty_db login)

appended_once :
    append letter_signer one_busy 60 empty_db login
    ≡ ok (one_event, recorded letter_signer 60 empty_db login)
appended_once =
    append_total letter_signer one_busy 60 empty_db login empty_db-IsIntact (omega arith)
      (inr (refl, inl refl)) tt

stored_fields :
    let p = (recorded letter_signer 60 empty_db login).payload in
    (p.action ≡ codes "user.login")
    × (p.event_type ≡ codes "http")
    × (p.method ≡ codes "POST")
    × (p.outcome ≡ codes "success")
    × (p.content_length ≡ 0)
    × (p.sequence ≡ 1)
unfolding normalize next_event
stored_fields = (refl, refl, refl, refl, refl, refl)

-- `Verify` finds a changed row, and the removal of the last row.
tampered_row :
    (verify letter_signer (record one_event {
      events = record (recorded letter_signer 60 empty_db login) { entry_hash = [] } ∷ [];
    })).message
    ≡ signature_invalid
unfolding verify normalize next_event signed_state
tampered_row = refl

removed_row : (verify letter_signer (record one_event { events = [] })).message ≡ head_invalid
unfolding verify normalize next_event signed_state
removed_row = refl

verified_empty : (verify letter_signer empty_db).valid ≡ true
unfolding verify
verified_empty = refl

verified_once : (verify letter_signer one_event).valid ≡ true
verified_once =
    append-verify letter_signer one_busy 60 empty_db login (omega arith) verified_empty one_event
      (recorded letter_signer 60 empty_db login) appended_once

cleaned :
    (out : AuditDb × CleanupResult) × (cleanup_before letter_signer true 90 70 one_event ≡ ok out)
unfolding cleanup_before verify normalize next_event signed_state
cleaned = (_, refl)

sanitize-IsClean_example : IsClean 4 (sanitize (codes " a b c ") 4)
sanitize-IsClean_example = sanitize-IsClean (codes " a b c ") 4

normalize-IsStorable_example : IsStorable (normalize letter_signer 60 login)
normalize-IsStorable_example = normalize-IsStorable letter_signer 60 login

verify-valid_iff_example :
    ((verify letter_signer one_event).valid ≡ true) ↔ IsIntact letter_signer one_event
verify-valid_iff_example = verify-valid_iff letter_signer one_event (omega arith)

append-verify_example : (verify letter_signer one_event).valid ≡ true
append-verify_example =
    append-verify letter_signer one_busy 60 empty_db login (omega arith) verified_empty one_event
      (recorded letter_signer 60 empty_db login) appended_once

append-IsIntact_example :
    IsIntact letter_signer one_event
    × (one_event.events ≡ recorded letter_signer 60 empty_db login ∷ [])
    × (one_event.checkpoint ≡ none)
    × IsLink letter_signer 1 genesis_hash (recorded letter_signer 60 empty_db login)
    × IsStorable (recorded letter_signer 60 empty_db login).payload
append-IsIntact_example =
    append-IsIntact letter_signer one_busy 60 empty_db login empty_db-IsIntact (omega arith)
      one_event (recorded letter_signer 60 empty_db login) appended_once

append_total_example :
    append letter_signer one_busy 60 empty_db login
    ≡ ok (one_event, recorded letter_signer 60 empty_db login)
append_total_example =
    append_total letter_signer one_busy 60 empty_db login empty_db-IsIntact (omega arith)
      (inr (refl, inl refl)) tt

cleanup_before-IsRetained_example :
    ((verify letter_signer one_event).valid ≡ true)
    × ((verify letter_signer cleaned.0.0).valid ≡ true)
    × IsRetained letter_signer 70 one_event cleaned.0
cleanup_before-IsRetained_example =
    cleanup_before-IsRetained letter_signer true 90 70 one_event (omega arith) cleaned.0 cleaned.1

-- The same event under another row id, with more ids given out.
abbrev renumbered : AuditDb
renumbered = record one_event {
  events = record (recorded letter_signer 60 empty_db login) { id = 7 } ∷ [];
  next_id = 8;
}

verified_renumbered : (verify letter_signer renumbered).valid ≡ true
unfolding verify normalize next_event signed_state
verified_renumbered = refl

verify-determines_history_example : payloads one_event.events ≡ payloads renumbered.events
verify-determines_history_example =
    verify-determines_history letter_signer one_event renumbered
      (signed_state letter_signer 60 (recorded letter_signer 60 empty_db login)) (omega arith)
      (omega arith) verified_once verified_renumbered refl refl refl (λ e. refl, tt)
