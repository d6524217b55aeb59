-- ===== src/Payments/Finality.antt =====
-- `SolanaFinalityReconciler` of apps/gateway/src/finality.ts, over any `FinalityStore` and over the
-- table `payments`. The request to one RPC URL, with its HTTP status and the schema of its answer,
-- is a parameter: none where any of it fails. Durations are left out.
use meterkit.Prelude.{
  ℕ, suc, ◌+◌, String, Bool, false, not, Option, none, some, List, [], ◌∷◌, ◌==◌, ltb,
  if◌then◌else◌, filter, length,
}
use meterkit.Payments.Table.{Row, list_confirmed_signatures, mark_finalized, mark_failed}

-- `FinalityStore`.
pub record FinalityStore (S : Type 0) : Type 0 where
  pub list_confirmed_signatures : ℕ → S → List String
  pub mark_finalized : String → S → S × Bool
  pub mark_failed : String → S → S × Bool

unfoldable pub payment_table : FinalityStore (List Row)
payment_table = record {
  list_confirmed_signatures = list_confirmed_signatures;
  mark_finalized = mark_finalized;
  mark_failed = mark_failed;
}

pub data Confirmation : Type 0 where
  processed confirmed finalized : Confirmation

-- The field `err`: null, missing, or an error.
pub data ErrorField : Type 0 where
  null missing present : ErrorField

pub record SignatureStatus : Type 0 where
  pub confirmation_status : Option Confirmation
  pub err : ErrorField

pub data EvidenceOutcome : Type 0 where
  skipped primary recovered unavailable : EvidenceOutcome

pub record Evidence : Type 0 where
  pub outcome : EvidenceOutcome
  pub attempts : ℕ
  pub fallback_used : Bool

-- `#missingChecks`, `#rpcUrls` and `#lastEvidence`.
pub record Reconciler : Type 0 where
  pub missing_checks : List (String × ℕ)
  pub rpc_urls : List String
  pub last_evidence : Option Evidence

pub record Report : Type 0 where
  pub checked : ℕ
  pub finalized : ℕ
  pub failed : ℕ
  pub unknown : ℕ

-- What the answer of an RPC says of the signatures, by their position.
abbrev pub Statuses : Type 0
Statuses = List (Option SignatureStatus)

abbrev delete_key : String → List (String × ℕ) → List (String × ℕ)
delete_key k = filter (λ e. not (e.0 == k))

abbrev get_count : String → List (String × ℕ) → ℕ
get_count k [] = 0
get_count k ((j, n) ∷ es) = if j == k then n else get_count k es

-- The four cases of the loop's body.
pub data Verdict : Type 0 where
  finality failure absence progress : Verdict

abbrev pub verdict : Option SignatureStatus → Verdict
verdict none = absence
verdict (some s) = judged s.confirmation_status s.err
  where
    judged : Option Confirmation → ErrorField → Verdict
    judged (some finalized) null = finality
    judged _ present = failure
    judged _ _ = progress

unique : List String → List String
unique [] = []
unique (x ∷ xs) = x ∷ filter (λ y. not (y == x)) (unique xs)

-- The constructor with a list of URLs: none where it throws.
unfoldable pub make_reconciler : List String → Option Reconciler
unfolding unique
make_reconciler [] = none
make_reconciler (u ∷ us) =
    some (record { missing_checks = []; rpc_urls = unique (u ∷ us); last_evidence = none })

-- What the loop changes.
pub record Progress (S : Type 0) : Type 0 where
  pub store : S
  pub missing_checks : List (String × ℕ)
  pub finalized : ℕ
  pub failed : ℕ
  pub unknown : ℕ

abbrev count_if : Bool → ℕ → ℕ
count_if b n = if b then suc n else n

module _ {S : Type 0} (fs : FinalityStore S) where
  -- The body of the loop for one signature.
  unfoldable pub visit : String → Verdict → Progress S → Progress S
  visit signature finality p =
      let (s, marked) = fs.mark_finalized signature p.store in
      record p {
        store = s;
        missing_checks = delete_key signature p.missing_checks;
        finalized = count_if marked p.finalized;
      }
  visit signature failure p =
      let (s, marked) = fs.mark_failed signature p.store in
      record p {
        store = s;
        missing_checks = delete_key signature p.missing_checks;
        failed = count_if marked p.failed;
      }
  visit signature absence p = record p {
    missing_checks =
        (signature, suc (get_count signature p.missing_checks))
        ∷ delete_key signature p.missing_checks;
    unknown = suc p.unknown;
  }
  visit signature progress p = record p { missing_checks = delete_key signature p.missing_checks }

  -- An empty signature is passed over.
  unfoldable pub visit_entry : String → Option SignatureStatus → Progress S → Progress S
  unfolding visit
  visit_entry x v p = if x == "" then p else visit x (verdict v) p

  -- The loop over the answer; entries beyond the signatures are passed over.
  unfoldable pub visit_all : List String → Statuses → Progress S → Progress S
  unfolding visit_entry
  visit_all [] vs p = p
  visit_all (x ∷ xs) [] p = p
  visit_all (x ∷ xs) (v ∷ vs) p = visit_all xs vs (visit_entry x v p)

abbrev pub first_answer : Option Statuses → ℕ → Option (Statuses × ℕ) → Option (Statuses × ℕ)
first_answer (some values) attempts later = some (values, attempts)
first_answer none attempts later = later

module _ (request : String → List String → Option Statuses) where
  -- `#getStatuses`: the first URL that answers, with the number of attempts; none where it throws.
  unfoldable pub get_statuses : List String → List String → ℕ → Option (Statuses × ℕ)
  get_statuses signatures [] errors = none
  get_statuses signatures (url ∷ urls) errors =
      first_answer (request url signatures) (errors + 1) (get_statuses signatures urls (errors + 1))

module _ {S : Type 0} (fs : FinalityStore S)
    (request : String → List String → Option Statuses) where
  -- What `reconcile` does with the answer.
  unfoldable pub settle_answer :
      List String → Option (Statuses × ℕ) → Reconciler → S → (Reconciler × S) × Option Report
  unfolding visit_all
  settle_answer signatures none r s = (
    (
      record r {
        last_evidence = some (record {
          outcome = unavailable;
          attempts = length r.rpc_urls;
          fallback_used = ltb 1 (length r.rpc_urls);
        });
      },
      s,
    ),
    none,
  )
  settle_answer signatures (some (values, attempts)) r s =
      let p = visit_all fs signatures values (record {
        store = s;
        missing_checks = r.missing_checks;
        finalized = 0;
        failed = 0;
        unknown = 0;
      }) in
      (
        (
          record r {
            missing_checks = p.missing_checks;
            last_evidence = some (record {
              outcome = if ltb 1 attempts then recovered else primary;
              attempts = attempts;
              fallback_used = ltb 1 attempts;
            });
          },
          p.store,
        ),
        some (record {
          checked = length signatures;
          finalized = p.finalized;
          failed = p.failed;
          unknown = p.unknown;
        }),
      )

  unfoldable pub reconcile_listed : List String → Reconciler → S → (Reconciler × S) × Option Report
  unfolding settle_answer get_statuses
  reconcile_listed [] r s = (
    (
      record r {
        last_evidence = some (record { outcome = skipped; attempts = 0; fallback_used = false });
      },
      s,
    ),
    some (record { checked = 0; finalized = 0; failed = 0; unknown = 0 }),
  )
  reconcile_listed (x ∷ xs) r s =
      settle_answer (x ∷ xs) (get_statuses request (x ∷ xs) r.rpc_urls 0) r s

  -- `reconcile`: the report is none where it throws.
  unfoldable pub reconcile : ℕ → Reconciler → S → (Reconciler × S) × Option Report
  unfolding reconcile_listed
  reconcile limit r s = reconcile_listed (fs.list_confirmed_signatures limit s) r s
