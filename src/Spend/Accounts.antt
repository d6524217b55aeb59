-- ===== src/Spend/Accounts.antt =====
-- The ledger seen as accounts: what each address holds open and has paid, without rows, keys and statuses,
-- and what each call of the store may do to that.
use meterkit.Prelude.{
  ℕ, String, ◌≡◌, refl, sym, subst, ◌∙◌, inl, inr, ◌⊎◌, Bool, some, List, [], ◌∷◌, ◌==◌, eq_iff,
  any, find, find-mem, All-impl, arith, Result-cases, Bool-cases, Option-cases,
}
use meterkit.Spend.{
  Reservation, ReservationStatus, Ledger, Outcome, consumed, released, is_reserved, save_allowance,
  delete_allowance_metadata, revoke_allowance, begin_allowance_revocation,
  set_allowance_observation_status, reserve_allowance_spend, finish_allowance_reservation,
  consume_allowance_spend, release_allowance_spend, expired_reservations,
}
use meterkit.Spend.Invariant.{IsLedger, total, share, is_consumed}
use meterkit.Spend.Settling.{finish-none, finish-settled, finish-eq}
use meterkit.Spend.Closing.{after}
use meterkit.Spend.Expiry.{IsOpen, expired_open, expired-Distinct, release_expired-IsLedger}
use meterkit.Spend.Deleting.{total-others, hit, others}
use meterkit.Spend.History.{
  keep, empty, run, step-IsLedger, empty-IsLedger, Call, saves, deletes, revokes, begins_revocation,
  observes, reserves, consumes, releases, cleans, step,
}
use meterkit.Spend.Moving.{
  same_reservations, save-reservations, account, closed-held, Account-eq, close_all-Moves, Account,
  reserve-Moves, Moves, closed-paid,
}

others-none :
    (owner known : String) (p : ReservationStatus → Bool) (rs : List Reservation)
    → total p known (others owner known rs) ≡ 0
others-none owner known p [] = refl
others-none owner known p (r ∷ rs) = ground (arith, others-none owner known p rs)

delete-Moves :
    (address owner known : String) (l : Ledger)
    → Moves address
        (deletes owner known)
        (account address l)
        (account address (delete_allowance_metadata owner known l).0)
unfolding delete_allowance_metadata account
delete-Moves address owner known l = elim (Bool-cases (any (hit owner known) l.allowances)) [
  | inl e ↦ elim (Bool-cases (address == known)) [
    | inl t ↦
        let same : address ≡ known = (eq_iff address known).0 t in
        inr (
          same,
          rw (e, same)
              (Account-eq (others-none owner known is_reserved l.reservations)
                (others-none owner known is_consumed l.reservations)),
        )
    | inr t ↦ inl (
        rw e (
          Account-eq (total-others owner known is_reserved address l.reservations t)
            (total-others owner known is_consumed address l.reservations t)))
  ]
  | inr e ↦ inl (rw e refl)
]

finish-Moves :
    (address id : String) (o : Outcome) (l : Ledger)
    → IsLedger l
    → ((r : Reservation) × (account address (keep l (finish_allowance_reservation id o l))
          ≡ account address (after o r r.reservation_id l))
        × IsOpen l r)
      ⊎ (account address (keep l (finish_allowance_reservation id o l)) ≡ account address l)
finish-Moves address id o l v =
    elim (Option-cases (find (λ q. q.reservation_id == id) l.reservations)) [
      | inl e ↦ inr (rw (finish-none id o l e) refl)
      | inr (r, e) ↦ elim (Bool-cases (is_reserved r.status)) [
        | inl t ↦
            let (key, _) = find-mem (λ q. q.reservation_id) id l.reservations e in
            inl (
              r,
              rw (finish-eq o r id l v e t, key) refl,
              (
                subst (λ k. find (λ q. q.reservation_id == k) l.reservations ≡ some r) (sym key) e,
                t,
              ),
            )
        | inr t ↦ inr (rw (finish-settled id o l r e t) refl)
      ]
    ]

consume-Moves :
    (address id : String) (l : Ledger)
    → IsLedger l
    → Moves address
        (consumes id)
        (account address l)
        (account address (keep l (finish_allowance_reservation id consumed l)))
consume-Moves address id l v = elim (finish-Moves address id consumed l v) [
  | inl (r, e, open_) ↦ rw e (
      unfold account in
      (
        share is_reserved address r,
        closed-held address consumed r l v open_,
        closed-paid address consumed r l v open_,
      ))
  | inr e ↦ rw e (0, omega arith, omega arith)
]

release-Moves :
    (address id : String) (l : Ledger)
    → IsLedger l
    → Moves address
        (releases id)
        (account address l)
        (account address (keep l (finish_allowance_reservation id released l)))
release-Moves address id l v = elim (finish-Moves address id released l v) [
  | inl (r, e, open_) ↦ rw e (
      unfold account in
      (
        share is_reserved address r,
        closed-held address released r l v open_,
        closed-paid address released r l v open_ ∙ omega arith,
      ))
  | inr e ↦ rw e (0, omega arith, refl)
]

step-Moves :
    (address : String) (l : Ledger) (c : ℕ × Call)
    → IsLedger l
    → Moves address c.1 (account address l) (account address (step l c))
unfolding step consume_allowance_spend release_allowance_spend
step-Moves address l (now, saves a) v = elim (Result-cases (save_allowance now a l)) [
  | inl (l', e) ↦ rw e (same_reservations address l l' (save-reservations now a l l' e))
  | inr (x, e) ↦ rw e refl
]
step-Moves address l (now, deletes owner known) v = delete-Moves address owner known l
step-Moves address l (now, revokes owner known s) v =
    same_reservations address l _ (unfold revoke_allowance in refl)
step-Moves address l (now, begins_revocation owner known) v =
    same_reservations address l _ (unfold begin_allowance_revocation in refl)
step-Moves address l (now, observes known o) v =
    same_reservations address l _ (unfold set_allowance_observation_status in refl)
step-Moves address l (now, reserves i) v = elim (Result-cases (reserve_allowance_spend now i l)) [
  | inl ((l', r), e) ↦ rw e (reserve-Moves address now i l l' r v e)
  | inr (x, e) ↦ rw e (inl refl)
]
step-Moves address l (now, consumes id) v = consume-Moves address id l v
step-Moves address l (now, releases id) v = release-Moves address id l v
step-Moves address l (now, cleans) v =
    let (e, _) = release_expired-IsLedger now l v in
    let taken = expired_reservations now l.reservations in
    rw e (
      close_all-Moves address taken l v (expired-Distinct now l.reservations v.ids_distinct)
        (All-impl taken (λ r p. (p.0, p.1)) (expired_open now l.reservations v.ids_distinct)))

-- The calls as moves of one account, one after another.
abbrev pub Traces : String → List (ℕ × Call) → Account → Account → Type 0
Traces address [] x y = y ≡ x
Traces address (c ∷ cs) x y = (z : Account) × Moves address c.1 x z × Traces address cs z y

run-Traces :
    (address : String) (l : Ledger) (cs : List (ℕ × Call))
    → IsLedger l
    → Traces address cs (account address l) (account address (run l cs))
unfolding run
run-Traces address l [] v = refl
run-Traces address l (c ∷ cs) v = (
  account address (step l c),
  step-Moves address l c v,
  run-Traces address (step l c) cs (step-IsLedger l c v),
)

-- The ledger refines accounts that know only what an address holds open and what it has paid: any calls on
-- an empty store move the account of an address from nothing, where a reservation holds its amount or
-- does nothing, consuming turns held amounts into paid ones, releasing and cleaning up only lower what is
-- held, deleting an address empties its account or does nothing, and no other call changes any account.
pub run-refines :
    (address : String) (cs : List (ℕ × Call))
    → Traces address cs (record { held = 0; paid = 0 }) (account address (run empty cs))
run-refines address cs = unfold account in run-Traces address empty cs empty-IsLedger
