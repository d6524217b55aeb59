-- ===== src/Resource/Spending.antt =====
-- The agent budget under the hooks of the server, over the ledger of packages/database/src/index.ts: the
-- ledger stays consistent, and a failed or canceled payment gives its reservation back.
use meterkit.Prelude.{
  ℕ, String, ◌≡◌, ◌⊎◌, subst, refl, Bool, true, none, some, List, lookup, lookup-delete, find, ok,
  inl, inr, ◌==◌,
}
use meterkit.Platform.{Runtime}
use meterkit.Spend.{
  Reservation, Ledger, SpendError, is_reserved, released, consumed, consume_allowance_spend,
  release_allowance_spend, finish_allowance_reservation,
}
use meterkit.Spend.Invariant.{IsLedger}
use meterkit.Spend.Settling.{finish-eq, finish_allowance_reservation-IsLedger}
use meterkit.Authorization.{View}
use meterkit.Authorization.Budget.{BudgetReservation, ledger_store, consume, release}
use meterkit.Authorization.Guarded.{ledger_guard, reserve-guarded}
use meterkit.Resource.{Payload, Options, Server, Verdict, done}
use meterkit.Resource.Finish.{
  settle_failure, verified_payment_canceled, Call, run, start, release_budget,
}
use meterkit.Resource.Keeping.{IsKept, run-keeps}

module _ (rt : Runtime) (view : View) (delegate : String) where
  ledger_guard-finish :
      (id : String) (l l' : Ledger) (x : Bool)
      → IsLedger l
      → (finish_allowance_reservation id consumed l ≡ ok (l', x))
        ⊎ (finish_allowance_reservation id released l ≡ ok (l', x))
      → IsLedger l'
  ledger_guard-finish id l l' x v (inl h) =
      let ((m, y), e, w) = finish_allowance_reservation-IsLedger id consumed l v in
      let same : m ≡ l' = cc (h, e) in subst IsLedger same w
  ledger_guard-finish id l l' x v (inr h) =
      let ((m, y), e, w) = finish_allowance_reservation-IsLedger id released l v in
      let same : m ≡ l' = cc (h, e) in subst IsLedger same w

  ledger_guard-IsKept : IsKept rt IsLedger (ledger_guard view delegate)
  unfolding ledger_store consume release consume_allowance_spend release_allowance_spend
  ledger_guard-IsKept = record {
    reserve_keeps =
        λ now uuid i l l' held h v. (reserve-guarded rt view delegate now uuid i l l' held v h).2;
    consume_keeps = λ now id l l' x h v. ledger_guard-finish id l l' x v (inl h);
    release_keeps = λ now id l l' x h v. ledger_guard-finish id l l' x v (inr h);
  }

-- With a guard over a consistent ledger, the ledger is consistent after any calls of the hooks.
pub run-budget-IsLedger :
    {S : Type 0} (rt : Runtime) (is_uuid : String → Bool) (o : Options S Ledger SpendError)
    (view : View) (delegate : String) (v : Server S Ledger) (cs : List (ℕ × String × Call))
    → o.agent_budget ≡ some (ledger_guard view delegate)
    → IsLedger v.budget
    → IsLedger (run rt is_uuid o (start v) cs).server.budget
run-budget-IsLedger rt is_uuid o view delegate v cs given valid =
    run-keeps rt is_uuid o IsLedger (ledger_guard view delegate)
      (ledger_guard-IsKept rt view delegate) (inr given) (start v) cs valid

-- What gives a reservation back: it is released in the ledger, and the server forgets it.
pub record IsGivenBack {S : Type 0} (held : BudgetReservation) (payload : Payload)
    (v : Server S Ledger) (out : Server S Ledger × Verdict) : Type 0 where
  pub ends : out.1 ≡ done
  pub given_back :
      finish_allowance_reservation held.reservation_id released v.budget ≡ ok (out.0.budget, true)
  pub forgotten : lookup payload.ref out.0.budget_reservations ≡ none
  pub store_same : out.0.store ≡ v.store

module _ {S : Type 0} (rt : Runtime) (is_uuid : String → Bool) (o : Options S Ledger SpendError)
    (view : View) (delegate : String) where
  release_budget-IsGivenBack :
      (now : ℕ) (payload : Payload) (v : Server S Ledger) (held : BudgetReservation)
      (q : Reservation)
      → IsLedger v.budget
      → find (λ z. z.reservation_id == held.reservation_id) v.budget.reservations ≡ some q
      → is_reserved q.status ≡ true
      → IsGivenBack held payload v (
          release_budget rt is_uuid o now payload v (some held) (some (ledger_guard view delegate)))
  unfolding ledger_store release release_allowance_spend
  release_budget-IsGivenBack now payload v held q valid found open_ =
      let e = finish-eq released q held.reservation_id v.budget valid found open_ in
      rw e (record {
        ends = refl;
        given_back = e;
        forgotten = lookup-delete payload.ref v.budget_reservations;
        store_same = refl;
      })

  -- Where the settlement of a payload fails, or its payment is canceled, and an open reservation of a
  -- consistent ledger is held for it, the reservation is released and forgotten; neither hook fails.
  pub failure-IsGivenBack :
      (now : ℕ) (payload : Payload) (v : Server S Ledger) (held : BudgetReservation)
      (q : Reservation)
      → o.agent_budget ≡ some (ledger_guard view delegate)
      → IsLedger v.budget
      → lookup payload.ref v.budget_reservations ≡ some held
      → find (λ z. z.reservation_id == held.reservation_id) v.budget.reservations ≡ some q
      → is_reserved q.status ≡ true
      → IsGivenBack held payload v (settle_failure rt is_uuid o now payload v)
        × IsGivenBack held payload v (verified_payment_canceled rt is_uuid o now payload v)
  unfolding settle_failure verified_payment_canceled
  failure-IsGivenBack now payload v held q given valid kept found open_ =
      let r = release_budget-IsGivenBack now payload v held q valid found open_ in
      rw (kept, given) (r, r)
