-- ===== src/Preview/Once.antt =====
-- No preview is executed twice, however the calls of `Consume` overlap.
use mathlib.Core.Path.{subst}
use oneinstack_panel.Common.{
  ℕ, ◌+◌, ◌≤◌, ◌≡◌, ◌⊎◌, refl, ◌∙◌, true, false, Option, none, some, List, [], ◌∷◌, ◌++◌, arith,
  Bool-cases, inl, inr, ◌==◌, if◌then◌else◌,
}
use oneinstack_panel.Text.{Text, text_eq}
use oneinstack_panel.Text.Laws.{text_eq_iff}
use oneinstack_panel.Preview.{
  OperationPreview, Codec, has_id, insert, mark_consumed, open_count, claim,
}

-- The writes of calls that overlap, in the order in which the database takes them: the row of a
-- `Create`, and the conditional update of a `Consume`, whatever that call has read before.
pub data Write : Type 0 where
  insert_write : OperationPreview → Write
  claim_write : ℕ → Text → Write

abbrev or_same : List OperationPreview → Option (List OperationPreview) → List OperationPreview
or_same rows none = rows
or_same rows (some rows') = rows'

module _ {B : Type 0} (c : Codec B) where
  unfoldable pub step : Write → List OperationPreview → List OperationPreview
  unfolding insert claim
  step (insert_write r) rows = or_same rows (insert r rows)
  step (claim_write now id) rows = or_same rows (claim c now id rows)

  abbrev pub succeeds : Text → Write → List OperationPreview → ℕ
  succeeds id (insert_write r) rows = 0
  succeeds id (claim_write now given) rows =
      if text_eq given id then elim (claim c now given rows) [ none ↦ 0 | some rows' ↦ 1 ] else 0

  -- How often a run claims the preview `id`.
  unfoldable pub successes : Text → List Write → List OperationPreview → ℕ
  unfolding step
  successes id [] rows = 0
  successes id (w ∷ ws) rows = succeeds id w rows + successes id ws (step w rows)

mark_consumed-open_count :
    (now : ℕ) (id : Text) (rows : List OperationPreview)
    → open_count id (mark_consumed now id rows) ≡ 0
unfolding mark_consumed open_count
mark_consumed-open_count now id [] = refl
mark_consumed-open_count now id (r ∷ rows) = ground (arith, mark_consumed-open_count now id rows)

mark_consumed-open_count_le :
    (now : ℕ) (id given : Text) (rows : List OperationPreview)
    → open_count id (mark_consumed now given rows) ≤ open_count id rows
unfolding mark_consumed open_count
mark_consumed-open_count_le now id given [] = omega arith
mark_consumed-open_count_le now id given (r ∷ rows) =
    ground (arith, mark_consumed-open_count_le now id given rows)

mark_consumed-has_id :
    (now : ℕ) (id given : Text) (rows : List OperationPreview)
    → has_id id rows ≡ true
    → has_id id (mark_consumed now given rows) ≡ true
unfolding mark_consumed
mark_consumed-has_id now id given [] h = h
mark_consumed-has_id now id given (r ∷ rows) h =
    ground (arith, mark_consumed-has_id now id given rows)

open_count-has_id :
    (id : Text) (rows : List OperationPreview) → open_count id rows ≡ 1 → has_id id rows ≡ true
unfolding open_count
open_count-has_id id [] h = ground arith
open_count-has_id id (r ∷ rows) h = ground (arith, open_count-has_id id rows)

open_count-append :
    (id : Text) (rows : List OperationPreview) (r : OperationPreview)
    → text_eq r.id id ≡ false
    → open_count id (rows ++ r ∷ []) ≡ open_count id rows
unfolding open_count
open_count-append id [] r h = ground arith
open_count-append id (s ∷ rows) r h = ground (arith, open_count-append id rows r)

has_id-append :
    (id : Text) (rows : List OperationPreview) (r : OperationPreview)
    → has_id id rows ≡ true
    → has_id id (rows ++ r ∷ []) ≡ true
has_id-append id [] r h = ground arith
has_id-append id (s ∷ rows) r h = ground (arith, has_id-append id rows r)

-- The preview is there and used.
abbrev IsTaken : Text → List OperationPreview → Type 0
IsTaken id rows = (has_id id rows ≡ true) × (open_count id rows ≡ 0)

fresh-apart :
    (r : OperationPreview) (id : Text) (rows : List OperationPreview)
    → has_id id rows ≡ true
    → has_id r.id rows ≡ false
    → text_eq r.id id ≡ false
fresh-apart r id rows there fresh = elim (Bool-cases (text_eq r.id id)) [
  | inr other ↦ other
  | inl same ↦
      let is = (text_eq_iff r.id id).0 same in
      let again : has_id r.id rows ≡ true = rw is there in absurd (cc (again, fresh))
]

module _ {B : Type 0} (c : Codec B) where
  insert-IsTaken :
      (r : OperationPreview) (id : Text) (rows : List OperationPreview)
      → IsTaken id rows
      → IsTaken id (step c (insert_write r) rows)
  unfolding step insert
  insert-IsTaken r id rows (there, used) = elim (Bool-cases (has_id r.id rows)) [
    | inl again ↦ rw (again, step, insert) (there, used)
    | inr fresh ↦
        let apart = fresh-apart r id rows there fresh in
        rw (fresh, step, insert)
          (has_id-append id rows r there, open_count-append id rows r apart ∙ used)
  ]

  claim-IsTaken :
      (now : ℕ) (given id : Text) (rows : List OperationPreview)
      → IsTaken id rows
      → IsTaken id (step c (claim_write now given) rows)
  unfolding step claim
  claim-IsTaken now given id rows (there, used) = elim (Bool-cases (open_count given rows == 1)) [
    | inr missed ↦ rw (missed, step, claim) (there, used)
    | inl taken ↦
        rw (taken, step, claim)
          (
            mark_consumed-has_id now id given rows there,
            omega (arith, mark_consumed-open_count_le now id given rows),
          )
  ]

  taken-succeeds :
      (w : Write) (id : Text) (rows : List OperationPreview)
      → IsTaken id rows
      → succeeds c id w rows ≡ 0
  unfolding claim
  taken-succeeds (insert_write r) id rows k = refl
  taken-succeeds (claim_write now given) id rows (there, used) =
      elim (Bool-cases (text_eq given id)) [
        | inr other ↦ ground arith
        | inl same ↦
            let is = (text_eq_iff given id).0 same in
            let none_open : open_count given rows ≡ 0 = rw is used in ground (arith, none_open)
      ]

  step-IsTaken :
      (w : Write) (id : Text) (rows : List OperationPreview)
      → IsTaken id rows
      → IsTaken id (step c w rows)
  step-IsTaken (insert_write r) id rows k = insert-IsTaken r id rows k
  step-IsTaken (claim_write now given) id rows k = claim-IsTaken now given id rows k

  taken-successes :
      (id : Text) (ws : List Write) (rows : List OperationPreview)
      → IsTaken id rows
      → successes c id ws rows ≡ 0
  unfolding successes
  taken-successes id [] rows k = refl
  taken-successes id (w ∷ ws) rows k = omega (
    arith,
    taken-succeeds w id rows k,
    taken-successes id ws (step c w rows) (step-IsTaken w id rows k),
  )

  -- A claim that succeeds takes the preview.
  success-IsTaken :
      (now : ℕ) (given id : Text) (rows : List OperationPreview)
      → (succeeds c id (claim_write now given) rows ≡ 0)
        ⊎ ((succeeds c id (claim_write now given) rows ≡ 1)
            × IsTaken id (step c (claim_write now given) rows))
  unfolding step claim
  success-IsTaken now given id rows = elim (Bool-cases (text_eq given id)) [
    | inr other ↦ inl (ground arith)
    | inl same ↦ elim (Bool-cases (open_count given rows == 1)) [
      | inr missed ↦ inl (ground arith)
      | inl one ↦
          let is = (text_eq_iff given id).0 same in
          let there =
            mark_consumed-has_id now given given rows
              (open_count-has_id given rows (ground arith)) in
          let used = mark_consumed-open_count now given rows in
          inr (
            ground arith,
            rw (one, step, claim)
                (subst (λ i. IsTaken i (mark_consumed now given rows)) is (there, used)),
          )
    ]
  ]

  -- Whatever calls of `Create` and `Consume` overlap, and in whatever order the database takes their
  -- writes, a preview is consumed at most once.
  pub successes-le_one :
      (id : Text) (ws : List Write) (rows : List OperationPreview) → successes c id ws rows ≤ 1
  unfolding successes
  successes-le_one id [] rows = omega arith
  successes-le_one id (insert_write r ∷ ws) rows =
      omega (arith, successes-le_one id ws (step c (insert_write r) rows))
  successes-le_one id (claim_write now given ∷ ws) rows = elim (success-IsTaken now given id rows) [
    | inl missed ↦ omega (arith, successes-le_one id ws (step c (claim_write now given) rows))
    | inr (once, k) ↦ omega (arith, taken-successes id ws (step c (claim_write now given) rows) k)
  ]
