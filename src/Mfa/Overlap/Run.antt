-- ===== src/Mfa/Overlap/Run.antt =====
-- internal/services/security/totp.go: logins of a user, with setups that overlap other calls.
use mathlib.Core.Path.{subst}
use oneinstack_panel.Common.{
  ℕ, zero, suc, ◌≡◌, refl, false, Option, none, some, List, [], ◌∷◌, arith, All, some_inj,
}
use oneinstack_panel.Common.Int.{ℤ}
use oneinstack_panel.Mfa.{UserMfa, MfaDb, Crypto}
use oneinstack_panel.Mfa.Manager.{find_mfa, after, Draft, rejected, drafted, save_setup}
use oneinstack_panel.Mfa.Counter.{HasCounter, Writes-HasCounter}
use oneinstack_panel.Mfa.Calls.{
  Call, login_call, setup_call, confirm_call, disable_call, regenerate_call, step, IsRising,
}
use oneinstack_panel.Mfa.Replay.{Grows, step-Grows, IsRising-append}
use oneinstack_panel.Mfa.Overlap.{
  Begun, Desk, nth_begun, drop_begun, Move, whole, read_half, save_half, is_crossing, save_begun,
  move, move_accepts, moves_accept, crosses,
}
use oneinstack_panel.Mfa.Overlap.Off.{
  IsOff, IsDraft, read_setup-IsDraft, save_setup-IsOff, save_setup-Writes,
}
use oneinstack_panel.Mfa.Overlap.Whole.{step-IsOff}

-- What is off in the one table is off in the other, with the same counter.
abbrev StaysOff : ℕ → MfaDb → MfaDb → Type 0
StaysOff own db db' = (n : ℤ) → IsOff n (find_mfa own db.mfa) → IsOff n (find_mfa own db'.mfa)

IsDraft-StaysOff :
    (own : ℕ) (db db' : MfaDb) (o : Draft)
    → StaysOff own db db'
    → IsDraft own (find_mfa own db.mfa) o
    → IsDraft own (find_mfa own db'.mfa) o
IsDraft-StaysOff own db db' (rejected e) k d = tt
IsDraft-StaysOff own db db' (drafted row) k (same, off, l) = (same, off, k row.last_totp_counter l)

abbrev AreDrafts : MfaDb → List Begun → Type 0
AreDrafts db bs = All (λ b. IsDraft b.user (find_mfa b.user db.mfa) b.draft) bs

AreDrafts-StaysOff :
    (db db' : MfaDb) (bs : List Begun)
    → All (λ b. StaysOff b.user db db') bs
    → AreDrafts db bs
    → AreDrafts db' bs
AreDrafts-StaysOff db db' [] k d = tt
AreDrafts-StaysOff db db' (b ∷ bs) (k, ks) (d, ds) =
    (IsDraft-StaysOff b.user db db' b.draft k d, AreDrafts-StaysOff db db' bs ks ds)

AreDrafts-drop_begun :
    (db : MfaDb) (n : ℕ) (bs : List Begun) → AreDrafts db bs → AreDrafts db (drop_begun n bs)
AreDrafts-drop_begun db n [] d = tt
AreDrafts-drop_begun db zero (b ∷ bs) (d, ds) = ds
AreDrafts-drop_begun db (suc n) (b ∷ bs) (d, ds) = (d, AreDrafts-drop_begun db n bs ds)

AreDrafts-nth_begun :
    (db : MfaDb) (n : ℕ) (bs : List Begun) (b : Begun)
    → AreDrafts db bs
    → nth_begun n bs ≡ some b
    → IsDraft b.user (find_mfa b.user db.mfa) b.draft
AreDrafts-nth_begun db n [] b d e = absurd (cc e)
AreDrafts-nth_begun db zero (a ∷ bs) b (d, ds) e =
    subst (λ x. IsDraft x.user (find_mfa x.user db.mfa) x.draft) (some_inj e) d
AreDrafts-nth_begun db (suc n) (a ∷ bs) b (d, ds) e = AreDrafts-nth_begun db n bs b ds e

-- A whole call that crosses no setup leaves the rows of their users off.
step-StaysOff :
    (c : Crypto) (k : Call) (db : MfaDb) (bs : List Begun)
    → is_crossing (whole k) bs ≡ false
    → All (λ b. StaysOff b.user db (step c k db)) bs
step-StaysOff c k db [] h = tt
step-StaysOff c (login_call now user code) db (b ∷ bs) h = (
  λ n o. step-IsOff c (login_call now user code) b.user n db refl o,
  step-StaysOff c (login_call now user code) db bs refl,
)
step-StaysOff c (setup_call user secret) db (b ∷ bs) h = (
  λ n o. step-IsOff c (setup_call user secret) b.user n db refl o,
  step-StaysOff c (setup_call user secret) db bs refl,
)
step-StaysOff c (confirm_call now user password code drawn) db (b ∷ bs) h = (
  λ n o. step-IsOff c (confirm_call now user password code drawn) b.user n db (ground arith) o,
  step-StaysOff c (confirm_call now user password code drawn) db bs (ground arith),
)
step-StaysOff c (disable_call now user password code) db (b ∷ bs) h = (
  λ n o. step-IsOff c (disable_call now user password code) b.user n db refl o,
  step-StaysOff c (disable_call now user password code) db bs refl,
)
step-StaysOff c (regenerate_call now user password code drawn) db (b ∷ bs) h = (
  λ n o. step-IsOff c (regenerate_call now user password code drawn) b.user n db refl o,
  step-StaysOff c (regenerate_call now user password code drawn) db bs refl,
)

-- The save of a draft leaves the rows of all users as far off as they were.
save-StaysOff :
    (b : Begun) (db : MfaDb) (bs : List Begun)
    → IsDraft b.user (find_mfa b.user db.mfa) b.draft
    → All (λ a. StaysOff a.user db (after db (save_setup b.secret b.draft db))) bs
save-StaysOff b db [] d = tt
save-StaysOff b db (a ∷ bs) d =
    (λ n o. save_setup-IsOff a.user b.user n b.secret b.draft db d o, save-StaysOff b db bs d)

module _ (c : Crypto) (id : ℕ) (n : ℤ) where
  -- What a move leaves: the drafts, and the counter or a greater one that it has accepted.
  abbrev Fares : Option ℤ → Desk → Type 0
  Fares o d = AreDrafts d.db d.begun × Grows id n o d.db.mfa

  save_begun-Fares :
      (m : ℕ) (o : Option Begun) (d : Desk)
      → nth_begun m d.begun ≡ o
      → AreDrafts d.db d.begun
      → HasCounter id n d.db.mfa
      → Fares none (save_begun m o d)
  unfolding save_begun
  save_begun-Fares m none d e ds k = (ds, k)
  save_begun-Fares m (some b) d e ds k =
      let mine = AreDrafts-nth_begun d.db m d.begun b ds e in
      (
        AreDrafts-StaysOff d.db (after d.db (save_setup b.secret b.draft d.db))
            (drop_begun m d.begun) (save-StaysOff b d.db (drop_begun m d.begun) mine)
            (AreDrafts-drop_begun d.db m d.begun ds),
        Writes-HasCounter b.user d.db _ id n (save_setup-Writes b.user b.secret b.draft d.db mine)
            k,
      )

  move-Fares :
      (k : Move) (d : Desk)
      → is_crossing k d.begun ≡ false
      → AreDrafts d.db d.begun
      → HasCounter id n d.db.mfa
      → Fares (move_accepts c id k d) (move c k d)
  unfolding move
  move-Fares (whole k) d h ds l = (
    AreDrafts-StaysOff d.db (step c k d.db) d.begun (step-StaysOff c k d.db d.begun h) ds,
    step-Grows c k id n d.db l,
  )
  move-Fares (read_half own secret) d h ds l = ((read_setup-IsDraft c own secret d.db, ds), l)
  move-Fares (save_half m) d h ds l = save_begun-Fares m (nth_begun m d.begun) d refl ds l

rising :
    (c : Crypto) (id : ℕ) (ks : List Move) (n : ℤ) (d : Desk)
    → crosses c ks d ≡ false
    → AreDrafts d.db d.begun
    → HasCounter id n d.db.mfa
    → IsRising n (moves_accept c id ks d)
unfolding moves_accept crosses
rising c id [] n d h ds k = tt
rising c id (m ∷ ms) n d h ds k =
    let now_free : is_crossing m d.begun ≡ false = ground arith in
    let then_free : crosses c ms (move c m d) ≡ false = ground arith in
    let (ds', g) = move-Fares c id n m d now_free ds k in
    IsRising-append id n (move_accepts c id m d) (move c m d).db.mfa
      (moves_accept c id ms (move c m d)) g (λ l k'. rising c id ms l (move c m d) then_free ds' k')

-- However setups overlap other calls, if no user confirms while a `Setup` of the same user is between
-- its halves and no setup has begun at the start: the counters of the one-time codes that logins of
-- one user accept rise strictly, and stay above the last counter that the user's row had.
pub moves_accept-IsRising :
    (c : Crypto) (ks : List Move) (id : ℕ) (row : UserMfa) (db : MfaDb)
    → crosses c ks (record { db = db; begun = [] }) ≡ false
    → find_mfa id db.mfa ≡ some row
    → IsRising row.last_totp_counter (moves_accept c id ks (record { db = db; begun = [] }))
moves_accept-IsRising c ks id row db h e =
    rising c id ks row.last_totp_counter (record { db = db; begun = [] }) h tt (row, e, refl)
