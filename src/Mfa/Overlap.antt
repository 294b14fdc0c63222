-- ===== src/Mfa/Overlap.antt =====
-- internal/services/security/totp.go: `Setup` reads the row of its user, and later saves it, in no
-- transaction. Here other calls, and the halves of other setups, may come in between.
pub mod Off
pub mod Whole
pub mod Run
use oneinstack_panel.Common.{
  ℕ, zero, suc, Bool, false, ◌||◌, Option, none, some, List, [], ◌∷◌, any, ◌==◌,
}
use oneinstack_panel.Common.Int.{ℤ}
use oneinstack_panel.Text.{Text}
use oneinstack_panel.Mfa.{MfaDb, Crypto}
use oneinstack_panel.Mfa.Manager.{after, Draft, read_setup, save_setup}
use oneinstack_panel.Mfa.Calls.{Call, confirm_call, accepted_by, or_append}
use oneinstack_panel.Mfa.Calls

-- A `Setup` between its halves.
pub record Begun : Type 0 where
  pub user : ℕ
  pub secret : Text
  pub draft : Draft

pub record Desk : Type 0 where
  pub db : MfaDb
  pub begun : List Begun

abbrev pub nth_begun : ℕ → List Begun → Option Begun
nth_begun n [] = none
nth_begun zero (b ∷ bs) = some b
nth_begun (suc n) (b ∷ bs) = nth_begun n bs

abbrev pub drop_begun : ℕ → List Begun → List Begun
drop_begun n [] = []
drop_begun zero (b ∷ bs) = bs
drop_begun (suc n) (b ∷ bs) = b ∷ drop_begun n bs

-- A whole call, the reading of a `Setup`, or the write of one of those that are begun.
pub data Move : Type 0 where
  whole : Call → Move
  read_half : ℕ → Text → Move
  save_half : ℕ → Move

-- A confirmation by a user whose `Setup` is between its halves.
abbrev pub is_crossing : Move → List Begun → Bool
is_crossing (whole (confirm_call now own password code drawn)) bs = any (λ b. b.user == own) bs
is_crossing _ bs = false

unfoldable pub save_begun : ℕ → Option Begun → Desk → Desk
unfolding save_setup
save_begun n none d = d
save_begun n (some b) d = record {
  db = after d.db (save_setup b.secret b.draft d.db);
  begun = drop_begun n d.begun;
}

unfoldable pub move : Crypto → Move → Desk → Desk
unfolding read_setup save_begun
move c (whole k) d = record d { db = Calls.step c k d.db }
move c (read_half own secret) d = record d {
  begun = record { user = own; secret = secret; draft = read_setup c own secret d.db } ∷ d.begun;
}
move c (save_half n) d = save_begun n (nth_begun n d.begun) d

abbrev pub move_accepts : Crypto → ℕ → Move → Desk → Option ℤ
move_accepts c id (whole k) d = accepted_by c id k d.db
move_accepts c id _ d = none

-- The counters that a run of moves accepts from the user `id`, in their order.
unfoldable pub moves_accept : Crypto → ℕ → List Move → Desk → List ℤ
unfolding move
moves_accept c id [] d = []
moves_accept c id (k ∷ ks) d = or_append (move_accepts c id k d) (moves_accept c id ks (move c k d))

-- No user confirms while a `Setup` of the same user is between its halves.
unfoldable pub crosses : Crypto → List Move → Desk → Bool
unfolding move
crosses c [] d = false
crosses c (k ∷ ks) d = is_crossing k d.begun || crosses c ks (move c k d)
