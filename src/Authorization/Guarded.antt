-- ===== src/Authorization/Guarded.antt =====
-- The guard of packages/sdk/src/agent-budget.ts over the ledger of packages/database/src/index.ts:
-- what the two checks give together.
use meterkit.Prelude.{ℕ, String, ◌≡◌, ok, bind-ok, subst}
use meterkit.Platform.{Runtime}
use meterkit.Spend.{Allowance, Ledger, SpendError, reserve_allowance_spend}
use meterkit.Spend.Invariant.{IsLedger}
use meterkit.Spend.Reserving.{IsReservable, reserve-IsReservable}
use meterkit.Spend.Holding.{reserve-IsLedger}
use meterkit.Authorization.{View}
use meterkit.Authorization.Budget.{
  BudgetReservation, Guard, ledger_store, reserve, store_request, from_check, from_store,
  from_check-ok, from_store-ok,
}
use meterkit.Authorization.Checks.{
  BudgetRequest, IsPermitted, check_budget, check_budget-IsPermitted,
}

abbrev pub ledger_guard : View → String → ℕ → Guard Ledger SpendError
ledger_guard v delegate now = record {
  authorization = v;
  delegate = delegate;
  store = ledger_store now;
}

-- A budget reservation that the guard grants over a consistent ledger was permitted by the
-- finalized authorization, was coverable by the stored row, and leaves the ledger
-- consistent.
pub reserve-guarded :
    (rt : Runtime) (v : View) (delegate : String) (now : ℕ) (uuid : String) (i : BudgetRequest)
    (l l' : Ledger) (b : BudgetReservation)
    → IsLedger l
    → reserve rt (ledger_guard v delegate now) now uuid i l ≡ ok (l', b)
    → IsPermitted rt v delegate now i
      × ((a : Allowance) × IsReservable now (store_request rt v now uuid i) l a)
      × IsLedger l'
unfolding reserve ledger_store
reserve-guarded rt v delegate now uuid i l l' b valid h =
    let asked = store_request rt v now uuid i in
    let (_, passed, h₁) = bind-ok (from_check (check_budget rt v delegate now i)) h in
    let (p, stored, h₂) = bind-ok (from_store (reserve_allowance_spend now asked l)) h₁ in
    let held = from_store-ok (reserve_allowance_spend now asked l) stored in
    let same : p.0 ≡ l' = cc in
    (
      check_budget-IsPermitted rt v delegate now i
          (from_check-ok (check_budget rt v delegate now i) passed),
      reserve-IsReservable now asked l held,
      subst IsLedger same (reserve-IsLedger now asked l p.0 p.1 valid held).0,
    )
