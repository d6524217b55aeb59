-- ===== src/Payments/Reconciling.antt =====
-- What a run of the reconciler of apps/gateway/src/finality.ts can do to the store.
use meterkit.Prelude.{
  ℕ, ◌+◌, ◌≤◌, String, ◌≡◌, refl, false, Option, none, some, List, [], ◌∷◌, ◌==◌, All, length,
  arith, ◌⊎◌, ◌∙◌, Option-cases, Bool-cases, inl, inr,
}
use meterkit.Payments.Table.{Row, is_confirmed, mark_finalized, mark_failed}
use meterkit.Payments.{finalized, failed}
use meterkit.Payments.Settling.{HasRow, mark-settled}
use meterkit.Payments.Finality.{
  FinalityStore, payment_table, Statuses, SignatureStatus, Verdict, finality, failure, absence,
  progress, verdict, Progress, Reconciler, Report, visit, visit_entry, visit_all, get_statuses,
  settle_answer, reconcile_listed, reconcile,
}

-- The store of a progress keeps what both marks keep.
module _ {S : Type 0} (fs : FinalityStore S) (P : S → Type 0)
    (keeps_finalized : (x : String) (s : S) → P s → P (fs.mark_finalized x s).0)
    (keeps_failed : (x : String) (s : S) → P s → P (fs.mark_failed x s).0) where
  visit-keeps : (x : String) (v : Verdict) (p : Progress S) → P p.store → P (visit fs x v p).store
  unfolding visit
  visit-keeps x finality p h = keeps_finalized x p.store h
  visit-keeps x failure p h = keeps_failed x p.store h
  visit-keeps x absence p h = h
  visit-keeps x progress p h = h

  visit_entry-keeps :
      (x : String) (v : Option SignatureStatus) (p : Progress S)
      → P p.store
      → P (visit_entry fs x v p).store
  unfolding visit_entry
  visit_entry-keeps x v p h = elim (Bool-cases (x == "")) [
    | inl e ↦ rw e h
    | inr e ↦ rw e (visit-keeps x (verdict v) p h)
  ]

  visit_all-keeps :
      (xs : List String) (vs : Statuses) (p : Progress S)
      → P p.store
      → P (visit_all fs xs vs p).store
  unfolding visit_all
  visit_all-keeps [] vs p h = h
  visit_all-keeps (x ∷ xs) [] p h = h
  visit_all-keeps (x ∷ xs) (v ∷ vs) p h =
      visit_all-keeps xs vs (visit_entry fs x v p) (visit_entry-keeps x v p h)

  settle_answer-keeps :
      (request : String → List String → Option Statuses) (xs : List String)
      (o : Option (Statuses × ℕ)) (r : Reconciler) (s : S)
      → P s
      → P (settle_answer fs request xs o r s).0.1
  unfolding settle_answer
  settle_answer-keeps request xs none r s h = h
  settle_answer-keeps request xs (some (vs, n)) r s h = visit_all-keeps xs vs _ h

  reconcile_listed-keeps :
      (request : String → List String → Option Statuses) (xs : List String) (r : Reconciler) (s : S)
      → P s
      → P (reconcile_listed fs request xs r s).0.1
  unfolding reconcile_listed
  reconcile_listed-keeps request [] r s h = h
  reconcile_listed-keeps request (x ∷ xs) r s h =
      settle_answer-keeps request (x ∷ xs) (get_statuses request (x ∷ xs) r.rpc_urls 0) r s h

-- Whatever the RPC answers, a payment that is finalized or failed stays exactly as it is.
pub reconcile-settled :
    (request : String → List String → Option Statuses) (limit : ℕ) (r : Reconciler) (id : String)
    (rows : List Row) {row : Row}
    → HasRow id rows row
    → is_confirmed row.payment.status ≡ false
    → HasRow id (reconcile payment_table request limit r rows).0.1 row
unfolding reconcile payment_table mark_finalized mark_failed
reconcile-settled request limit r id rows {row} h n =
    reconcile_listed-keeps payment_table (λ t. HasRow id t row)
      (λ x t k. mark-settled finalized x id t k n) (λ x t k. mark-settled failed x id t k n) request
      (payment_table.list_confirmed_signatures limit rows) r rows h

-- An answer says nothing final: no signature is reported finalized, and none with an error.
abbrev pub IsInconclusive : Statuses → Type 0
IsInconclusive vs = All (λ v. (verdict v ≡ absence) ⊎ (verdict v ≡ progress)) vs

module _ {S : Type 0} (fs : FinalityStore S) where
  -- The signatures that were counted.
  abbrev counted : Progress S → ℕ
  counted p = p.finalized + p.failed + p.unknown

  visit-counted :
      (x : String) (v : Verdict) (p : Progress S) → counted (visit fs x v p) ≤ counted p + 1
  unfolding visit
  visit-counted x finality p = ground arith
  visit-counted x failure p = ground arith
  visit-counted x absence p = ground arith
  visit-counted x progress p = ground arith

  visit_entry-counted :
      (x : String) (v : Option SignatureStatus) (p : Progress S)
      → counted (visit_entry fs x v p) ≤ counted p + 1
  unfolding visit_entry
  visit_entry-counted x v p = elim (Bool-cases (x == "")) [
    | inl e ↦ rw e (omega arith)
    | inr e ↦ rw e (visit-counted x (verdict v) p)
  ]

  pub visit_all-counted :
      (xs : List String) (vs : Statuses) (p : Progress S)
      → counted (visit_all fs xs vs p) ≤ counted p + length xs
  unfolding visit_all
  visit_all-counted [] vs p = omega arith
  visit_all-counted (x ∷ xs) [] p = omega arith
  visit_all-counted (x ∷ xs) (v ∷ vs) p =
      omega (arith, visit_entry-counted x v p, visit_all-counted xs vs (visit_entry fs x v p))

  visit_entry-inconclusive :
      (x : String) (v : Option SignatureStatus) (p : Progress S)
      → (verdict v ≡ absence) ⊎ (verdict v ≡ progress)
      → (visit_entry fs x v p).store ≡ p.store
  unfolding visit_entry visit
  visit_entry-inconclusive x v p (inl a) = ground (arith, a)
  visit_entry-inconclusive x v p (inr a) = ground (arith, a)

  visit_all-inconclusive :
      (xs : List String) (vs : Statuses) (p : Progress S)
      → IsInconclusive vs
      → (visit_all fs xs vs p).store ≡ p.store
  unfolding visit_all
  visit_all-inconclusive [] vs p h = refl
  visit_all-inconclusive (x ∷ xs) [] p h = refl
  visit_all-inconclusive (x ∷ xs) (v ∷ vs) p h =
      visit_all-inconclusive xs vs (visit_entry fs x v p) h.1 ∙ visit_entry-inconclusive x v p h.0

  answer-inconclusive :
      (request : String → List String → Option Statuses) (xs : List String)
      (o : Option (Statuses × ℕ)) (r : Reconciler) (s : S)
      → ((vs : Statuses) (n : ℕ) → o ≡ some (vs, n) → IsInconclusive vs)
      → (settle_answer fs request xs o r s).0.1 ≡ s
  unfolding settle_answer
  answer-inconclusive request xs none r s h = refl
  answer-inconclusive request xs (some (vs, n)) r s h = visit_all-inconclusive xs vs _ (h vs n refl)

-- An answer that comes from one of the URLs.
get_statuses-answer :
    (request : String → List String → Option Statuses) (xs urls : List String) (n : ℕ)
    {vs : Statuses} {m : ℕ}
    → get_statuses request xs urls n ≡ some (vs, m)
    → (url : String) × (request url xs ≡ some vs)
unfolding get_statuses
get_statuses-answer request xs [] n h = cc
get_statuses-answer request xs (url ∷ urls) n h = elim (Option-cases (request url xs)) [
  | inl e ↦ get_statuses-answer request xs urls (n + 1) (rw e at h)
  | inr (vs', e) ↦ (url, cc (e, h))
]

listed-inconclusive :
    {S : Type 0} (fs : FinalityStore S) (request : String → List String → Option Statuses)
    (xs : List String) (r : Reconciler) (s : S)
    → ((url : String) (ys : List String) (vs : Statuses)
        → request url ys ≡ some vs
        → IsInconclusive vs)
    → (reconcile_listed fs request xs r s).0.1 ≡ s
unfolding reconcile_listed
listed-inconclusive fs request [] r s h = refl
listed-inconclusive fs request (x ∷ xs) r s h =
    answer-inconclusive fs request (x ∷ xs) (get_statuses request (x ∷ xs) r.rpc_urls 0) r s
      (λ vs n e.
        let (url, answered) = get_statuses-answer request (x ∷ xs) r.rpc_urls 0 e in
        h url (x ∷ xs) vs answered)

-- As long as no URL answers that a signature is finalized or that it has an error, the store stays
-- as it is: a signature that the RPC does not know is not taken for a failure.
pub reconcile-inconclusive :
    {S : Type 0} (fs : FinalityStore S) (request : String → List String → Option Statuses)
    (limit : ℕ) (r : Reconciler) (s : S)
    → ((url : String) (xs : List String) (vs : Statuses)
        → request url xs ≡ some vs
        → IsInconclusive vs)
    → (reconcile fs request limit r s).0.1 ≡ s
unfolding reconcile
reconcile-inconclusive fs request limit r s h =
    listed-inconclusive fs request (fs.list_confirmed_signatures limit s) r s h

answer-counted :
    {S : Type 0} (fs : FinalityStore S) (request : String → List String → Option Statuses)
    (xs : List String) (o : Option (Statuses × ℕ)) (r : Reconciler) (s : S) {report : Report}
    → (settle_answer fs request xs o r s).1 ≡ some report
    → (report.finalized + report.failed + report.unknown ≤ report.checked)
      × (report.checked ≡ length xs)
unfolding settle_answer
answer-counted fs request xs none r s h = cc
answer-counted fs request xs (some (vs, n)) r s h = ground (
  arith,
  h,
  visit_all-counted fs xs vs (record {
    store = s;
    missing_checks = r.missing_checks;
    finalized = 0;
    failed = 0;
    unknown = 0;
  }),
)

listed-counted :
    {S : Type 0} (fs : FinalityStore S) (request : String → List String → Option Statuses)
    (xs : List String) (r : Reconciler) (s : S) {report : Report}
    → (reconcile_listed fs request xs r s).1 ≡ some report
    → (report.finalized + report.failed + report.unknown ≤ report.checked)
      × (report.checked ≡ length xs)
unfolding reconcile_listed
listed-counted fs request [] r s h = ground (arith, h)
listed-counted fs request (x ∷ xs) r s h =
    answer-counted fs request (x ∷ xs) (get_statuses request (x ∷ xs) r.rpc_urls 0) r s h

-- A reconciliation that reports has counted each listed signature at most once, and none but those.
pub reconcile-counted :
    {S : Type 0} (fs : FinalityStore S) (request : String → List String → Option Statuses)
    (limit : ℕ) (r : Reconciler) (s : S) {report : Report}
    → (reconcile fs request limit r s).1 ≡ some report
    → (report.finalized + report.failed + report.unknown ≤ report.checked)
      × (report.checked ≡ length (fs.list_confirmed_signatures limit s))
unfolding reconcile
reconcile-counted fs request limit r s h =
    listed-counted fs request (fs.list_confirmed_signatures limit s) r s h
