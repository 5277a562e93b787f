-- ===== src/Jobs/Drained.antt =====
-- Repeated claims at one time take every due job, each once.
use onshape_export.Base.{
  ℕ, zero, suc, ◌+◌, ◌≤◌, ◌<◌, ◌≡◌, refl, sym, ap, ◌∙◌, Bool, true, false, ◌&&◌, some, List, [],
  ◌∷◌, arith, ◌==◌, All, All-map, update_where, update_where_none, update_where-Distinct, affected,
  affected_none, Option-cases, Bool-cases, if◌then◌else◌, inl, inr,
}
use onshape_export.Jobs.{Job, Queue, is_due, next_due, claimed, claim_row, claim_next_job}
use onshape_export.Jobs.View.{HasUniqueIds}
use onshape_export.Jobs.Claims.{next_due-All, next_due-is_due, next_due-none}

-- As many claims, at one time.
unfoldable pub claim_times : ℕ → ℕ → ℕ → Queue → Queue
unfolding claim_next_job
claim_times zero now seconds q = q
claim_times (suc n) now seconds q = claim_times n now seconds (claim_next_job now seconds q).0

abbrev pub due_jobs : ℕ → Queue → ℕ
due_jobs now q = affected (is_due now) q.rows

claimed_not_due :
    (now seconds : ℕ) (j : Job) → 0 < seconds → is_due now (claimed now seconds j) ≡ false
claimed_not_due now seconds j h = ground (arith, h)

-- A claim of rows that were due leaves so many fewer.
affected-claimed :
    (now seconds : ℕ) (p : Job → Bool) (rows : List Job)
    → 0 < seconds
    → affected (is_due now) (update_where p (claimed now seconds) rows)
        + affected (λ k. p k && is_due now k) rows
      ≡ affected (is_due now) rows
unfolding affected update_where
affected-claimed now seconds p [] h = omega arith
affected-claimed now seconds p (k ∷ rows) h =
    let ih = affected-claimed now seconds p rows h in
    elim (Bool-cases (p k)) [
      | inl picked ↦ elim (Bool-cases (is_due now k)) [
        | inl due ↦ rw (picked, due, claimed_not_due now seconds k h) (omega (arith, ih))
        | inr idle ↦ rw (picked, idle, claimed_not_due now seconds k h) (omega (arith, ih))
      ]
      | inr passed ↦ rw passed (omega (arith, ih))
    ]

all_uncounted :
    (p : Job → Bool) (rows : List Job) → affected p rows ≡ 0 → All (λ k. p k ≡ false) rows
unfolding affected
all_uncounted p [] e = tt
all_uncounted p (k ∷ rows) e = (ground (arith, e), all_uncounted p rows (ground (arith, e)))

-- Some row is counted, when the row that is picked passes the test.
affected-some :
    (p : Job → Bool) (now : ℕ) (rows : List Job) (j : Job)
    → next_due now rows ≡ some j
    → p j ≡ true
    → 0 < affected p rows
affected-some p now rows j e h = elim (Bool-cases (affected p rows == 0)) [
  | inl empty ↦
      let passed =
        next_due-All (λ k. p k ≡ false) now rows j e
          (all_uncounted p rows (ground (arith, empty))) in
      absurd (ground (arith, passed, h))
  | inr more ↦ ground (arith, more)
]

-- Rows with one id are one row.
abbrev IsAlone : List Job → Job → Type 0
IsAlone rows j = All (λ k. (k.id == j.id) ≡ true → k ≡ j) rows

HasUniqueIds-IsAlone : (rows : List Job) → HasUniqueIds rows → All (IsAlone rows) rows
HasUniqueIds-IsAlone [] h = tt
HasUniqueIds-IsAlone (k ∷ rows) (apart, h) = (
  (λ _. refl, All-map _ _ rows (λ x other same. absurd (ground (arith, other, same))) apart),
  both rows apart (HasUniqueIds-IsAlone rows h),
)
  where
    both :
        (js : List Job)
        → All (λ j. (k.id == j.id) ≡ false) js
        → All (IsAlone rows) js
        → All (IsAlone (k ∷ rows)) js
    both [] a b = tt
    both (j ∷ js) (other, a) (alone, b) =
        ((λ same. absurd (ground (arith, other, same)), alone), both js a b)

-- One claim first, and then all that are due, is all that are due.
update_after_claim :
    (now seconds : ℕ) (j : Job) (rows : List Job)
    → 0 < seconds
    → is_due now j ≡ true
    → IsAlone rows j
    → update_where
        (is_due now)
        (claimed now seconds)
        (update_where (λ k. k.id == j.id) (claimed now seconds) rows)
      ≡ update_where (is_due now) (claimed now seconds) rows
unfolding update_where
update_after_claim now seconds j [] h due alone = refl
update_after_claim now seconds j (k ∷ rows) h due (same, alone) =
    let ih = update_after_claim now seconds j rows h due alone in
    elim (Bool-cases (k.id == j.id)) [
      | inr other ↦ rw other (ap (λ t. (if is_due now k then claimed now seconds k else k) ∷ t) ih)
      | inl here ↦
          let k_due : is_due now k ≡ true = ap (is_due now) (same here) ∙ due in
          rw (here, claimed_not_due now seconds k h, k_due) (ap (λ t. claimed now seconds k ∷ t) ih)
    ]

module _ (now seconds : ℕ) (ahead : 0 < seconds) where
  -- With unique ids, and a lease that is not over at once, as many claims at one time as there are due
  -- jobs, or more, do the same as one UPDATE that claims every due job: each due job is running with
  -- its attempt counted once, however the claims order them, and every other job is as it was.
  pub claim_times-update_where :
      (n : ℕ) (q : Queue)
      → HasUniqueIds q.rows
      → due_jobs now q ≤ n
      → claim_times n now seconds q
        ≡ record q { rows = update_where (is_due now) (claimed now seconds) q.rows }
  unfolding claim_times claim_next_job
  claim_times-update_where zero q unique few =
      ap (λ rows. record q { rows = rows })
        (sym (update_where_none (is_due now) (claimed now seconds) q.rows (omega (arith, few))))
  claim_times-update_where (suc n) q unique few = elim (Option-cases (next_due now q.rows)) [
    | inl idle ↦
        let nothing = affected_none (is_due now) q.rows (next_due-none now q.rows idle) in
        ap (λ o. claim_times n now seconds (claim_row now seconds q o).0) idle
        ∙ claim_times-update_where n q unique (omega (arith, nothing))
    | inr (j, picked) ↦
        let due = next_due-is_due now q.rows j picked in
        let fewer = affected-claimed now seconds (λ k. k.id == j.id) q.rows ahead in
        let some_claimed =
          affected-some (λ k. (k.id == j.id) && is_due now k) now q.rows j picked
            (ground (arith, due)) in
        let alone =
          next_due-All (IsAlone q.rows) now q.rows j picked (HasUniqueIds-IsAlone q.rows unique) in
        ap (λ o. claim_times n now seconds (claim_row now seconds q o).0) picked
        ∙ claim_times-update_where n
            (record q { rows = update_where (λ k. k.id == j.id) (claimed now seconds) q.rows })
            (update_where-Distinct (λ a b. a == b) (λ (k : Job). k.id) (λ k. k.id == j.id)
              (claimed now seconds) (λ x. refl) q.rows unique)
            (omega (arith, few, fewer, some_claimed))
        ∙ ap (λ rows. record q { rows = rows })
            (update_after_claim now seconds j q.rows ahead due alone)
  ]
