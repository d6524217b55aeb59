-- ===== src/Evidence/Aggregating.antt =====
-- What the summary of a ledger reads.
use meterkit.Prelude.{◌≡◌, refl, ap, Bool, ◌&&◌, List, [], ◌∷◌, filter, arith, ◌∙◌}
use meterkit.Evidence.{
  Evidence, is_consented, is_external, qualifies_for_commercial_gate, aggregate_self_service_ledger,
  gate_of,
}

filter-filter :
    {A : Type 0} (p q : A → Bool) (xs : List A)
    → filter p (filter q xs) ≡ filter (λ x. p x && q x) xs
filter-filter p q [] = refl
filter-filter p q (x ∷ xs) = ground (arith, filter-filter p q xs)

filter_same :
    {A : Type 0} (p q : A → Bool) (xs : List A) → ((x : A) → p x ≡ q x) → filter p xs ≡ filter q xs
filter_same p q [] h = refl
filter_same p q (x ∷ xs) h = ground (arith, h x, filter_same p q xs h)

-- The summary does not depend on the records without the consents: taking them out of the ledger,
-- as after a withdrawal, changes nothing in it.
pub aggregate-consented :
    (records : List Evidence)
    → aggregate_self_service_ledger (filter is_consented records)
      ≡ aggregate_self_service_ledger records
unfolding aggregate_self_service_ledger
aggregate-consented records =
    rw
      (
        filter-filter is_consented is_consented records,
        filter_same (λ e. is_consented e && is_consented e) is_consented records
            (λ e. ground arith),
      )
      refl

-- The commercial gate in the summary is the gate of the whole ledger: the records that the summary
-- leaves out before it asks for the gate do not count there either.
pub aggregate-gate :
    (records : List Evidence)
    → (aggregate_self_service_ledger records).commercial_gate
      ≡ qualifies_for_commercial_gate records
unfolding aggregate_self_service_ledger qualifies_for_commercial_gate
aggregate-gate records = ap gate_of (
    filter-filter (λ e. is_external e && is_consented e) is_external (filter is_consented records)
    ∙ filter-filter (λ e. is_external e && is_consented e && is_external e) is_consented records
    ∙ filter_same (λ e. is_external e && is_consented e && is_external e && is_consented e)
        (λ e. is_external e && is_consented e) records (λ e. ground arith))
