-- ===== src/Spend/Moving.antt =====
-- What the reserving, closing and storing of rows do to the account of an address.
use meterkit.Prelude.{
  ℕ, ◌+◌, String, ◌≡◌, refl, ◌∙◌, inl, inr, ◌⊎◌, Option, none, some, List, [], ◌∷◌, ◌==◌, eq_iff,
  any, All, Distinct, ok, arith, Bool-cases, or_throw-ok,
}
use meterkit.Spend.{
  checked, to_row, constraint_violated, Allowance, AllowanceRecord, Reservation, ReservationInput,
  Ledger, Outcome, consumed, released, is_reserved, save_allowance, upsert_allowance,
  with_allowances, close, reserve_allowance_spend, to_reservation,
}
use meterkit.Spend.Invariant.{IsLedger, total, share, is_consumed, reservation_ids}
use meterkit.Spend.Settling.{total-close, after-IsLedger}
use meterkit.Spend.Closing.{after}
use meterkit.Spend.Reserving.{holding}
use meterkit.Spend.Holding.{reserve-IsLedger}
use meterkit.Spend.Expiry.{IsOpen, IsOpen-after, close_all}
use meterkit.Spend.History.{
  Call, saves, deletes, revokes, begins_revocation, observes, reserves, consumes, releases, cleans,
}

pub record Account : Type 0 where
  pub held : ℕ
  pub paid : ℕ

pub Account-eq : {x y : Account} → x.held ≡ y.held → x.paid ≡ y.paid → x ≡ y
Account-eq {x} {y} p q = rw (p, q) refl

unfoldable pub account : String → Ledger → Account
account address l = record {
  held = total is_reserved address l.reservations;
  paid = total is_consumed address l.reservations;
}

-- What a call may do to the account of an address.
abbrev pub Moves : String → Call → Account → Account → Type 0
Moves address (saves a) x y = y ≡ x
Moves address (deletes owner known) x y =
    (y ≡ x) ⊎ ((address ≡ known) × (y ≡ record { held = 0; paid = 0 }))
Moves address (revokes owner known s) x y = y ≡ x
Moves address (begins_revocation owner known) x y = y ≡ x
Moves address (observes known o) x y = y ≡ x
Moves address (reserves i) x y =
    (y ≡ x)
    ⊎ ((address ≡ i.allowance_address)
        × (y ≡ record { held = x.held + i.amount_atomic; paid = x.paid }))
Moves address (consumes id) x y = (n : ℕ) × (y.held + n ≡ x.held) × (y.paid ≡ x.paid + n)
Moves address (releases id) x y = (n : ℕ) × (y.held + n ≡ x.held) × (y.paid ≡ x.paid)
Moves address cleans x y = (n : ℕ) × (y.held + n ≡ x.held) × (y.paid ≡ x.paid)

pub same_reservations :
    (address : String) (l l' : Ledger)
    → l'.reservations ≡ l.reservations
    → account address l' ≡ account address l
unfolding account
same_reservations address l l' e = rw e refl

pub save-reservations :
    (now : ℕ) (a : AllowanceRecord) (l l' : Ledger)
    → save_allowance now a l ≡ ok l'
    → l'.reservations ≡ l.reservations
unfolding save_allowance upsert_allowance with_allowances
save-reservations now a l l' h =
    let (row, _, g) = or_throw-ok (checked (to_row now a)) constraint_violated h in upserted row g
  where
    rows_only :
        (o : Option (List Allowance))
        → with_allowances l o ≡ ok l'
        → l'.reservations ≡ l.reservations
    rows_only none g = cc
    rows_only (some rows) g = let same : l' ≡ record l { allowances = rows } = cc in rw same refl

    upserted : (row : Allowance) → upsert_allowance row l ≡ ok l' → l'.reservations ≡ l.reservations
    upserted row g = elim (Bool-cases (any (λ a. a.address == row.address) l.allowances)) [
      | inl e ↦ rows_only _ (rw e at g)
      | inr e ↦
          let same : l' ≡ record l { allowances = row ∷ l.allowances } = cc (rw e at g) in
          rw same refl
    ]

pub reserve-Moves :
    (address : String) (now : ℕ) (i : ReservationInput) (l l' : Ledger) (r : Reservation)
    → IsLedger l
    → reserve_allowance_spend now i l ≡ ok (l', r)
    → Moves address (reserves i) (account address l) (account address l')
unfolding account holding to_reservation
reserve-Moves address now i l l' r v h =
    let (_, _, same) = reserve-IsLedger now i l l' r v h in
    elim (Bool-cases (address == i.allowance_address)) [
      | inl e ↦ inr (
        (eq_iff address i.allowance_address).0 e,
        rw (same, e) (Account-eq (omega arith) (omega arith)),
      )
      | inr e ↦ inl (rw (same, e) (Account-eq (omega arith) (omega arith)))
    ]

pub closed-held :
    (address : String) (o : Outcome) (r : Reservation) (l : Ledger)
    → IsLedger l
    → IsOpen l r
    → total is_reserved address (after o r r.reservation_id l).reservations
        + share is_reserved address r
      ≡ total is_reserved address l.reservations
unfolding after close
closed-held address consumed r l v (f, e) =
    let t = total-close consumed r r.reservation_id l v f e is_reserved address in ground (arith, t)
closed-held address released r l v (f, e) =
    let t = total-close released r r.reservation_id l v f e is_reserved address in ground (arith, t)

-- What a settlement that pays adds to the payments of its address; one that releases adds nothing.
abbrev pub due_of : Outcome → String → Reservation → ℕ
due_of consumed address r = share is_reserved address r
due_of released address r = 0

pub closed-paid :
    (address : String) (o : Outcome) (r : Reservation) (l : Ledger)
    → IsLedger l
    → IsOpen l r
    → total is_consumed address (after o r r.reservation_id l).reservations
      ≡ total is_consumed address l.reservations + due_of o address r
unfolding after close
closed-paid address consumed r l v (f, e) =
    let t = total-close consumed r r.reservation_id l v f e is_consumed address in ground (arith, t)
closed-paid address released r l v (f, e) =
    let t = total-close released r r.reservation_id l v f e is_consumed address in ground (arith, t)

pub close_all-Moves :
    (address : String) (rs : List Reservation) (l : Ledger)
    → IsLedger l
    → Distinct (reservation_ids rs)
    → All (IsOpen l) rs
    → Moves address cleans (account address l) (account address (close_all rs l))
unfolding close_all account
close_all-Moves address [] l v d h = (0, omega arith, refl)
close_all-Moves address (r ∷ rs) l v d h =
    let (n, held, paid) =
      close_all-Moves address rs (after released r r.reservation_id l)
        (after-IsLedger released r r.reservation_id l v h.0.0 h.0.1) d.1
        (IsOpen-after l r rs d.0 h.1) in
    (
      n + share is_reserved address r,
      omega (arith, held, closed-held address released r l v h.0),
      paid ∙ closed-paid address released r l v h.0 ∙ omega arith,
    )
