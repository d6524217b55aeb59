-- ===== src/Spend/Holding.antt =====
-- What a reservation leaves: the invariant holds, and the payment key is taken.
use meterkit.Prelude.{
  ℕ, ◌+◌, ◌≤◌, ◌≡◌, ◌≢◌, refl, sym, subst, inl, inr, true, List, ◌∷◌, ◌==◌, if◌then◌else◌, mem,
  All-both, All-modify_where, find-mem, find-only, map-modify_where, Bool-cases, ok, arith,
}
use meterkit.Spend.{
  Allowance, Reservation, ReservationInput, Ledger, hold, to_reservation, reserve_allowance_spend,
}
use meterkit.Spend.Invariant.{IsFunded, IsOwned, IsLedger, addresses, payment_keys}
use meterkit.Spend.Reserving.{
  reserve-eq, holding, IsReservable, reserve-IsReservable, hold-row_check,
}

held_row-address : (n : ℕ) (a : Allowance) → (hold n a).address ≡ a.address
unfolding hold
held_row-address n a = refl

-- A row of `agent_allowances` under the UPDATE for `i`.
abbrev hold_row : ReservationInput → Allowance → Allowance
hold_row i b = if b.address == i.allowance_address then hold i.amount_atomic b else b

hold_row-IsFunded :
    (i : ReservationInput) (rs : List Reservation) (a b : Allowance)
    → a.spent_atomic + a.reserved_atomic + i.amount_atomic ≤ a.max_atomic
    → IsFunded rs b × ((b.address == i.allowance_address) ≡ true → b ≡ a)
    → IsFunded (to_reservation i ∷ rs) (hold_row i b)
unfolding to_reservation hold
hold_row-IsFunded i rs a b le p = elim (Bool-cases (b.address == i.allowance_address)) [
  | inl e ↦ rw e (record {
    bounded = hold-row_check i.amount_atomic b (p.0).bounded (rw (p.1 e) le);
    held = rw e (omega (arith, (p.0).held));
    spent = omega (arith, (p.0).spent);
  })
  | inr e ↦ rw e (record {
    bounded = (p.0).bounded;
    held = rw e (omega (arith, (p.0).held));
    spent = omega (arith, (p.0).spent);
  })
]

holding-addresses :
    (i : ReservationInput) (l : Ledger)
    → addresses (holding i l).allowances ≡ addresses l.allowances
unfolding holding
holding-addresses i l =
    map-modify_where (λ b. b.address) (λ b. b.address == i.allowance_address) (hold i.amount_atomic)
      l.allowances (held_row-address i.amount_atomic)

-- A reservation keeps the invariant.
pub holding-IsLedger :
    (now : ℕ) (i : ReservationInput) (l : Ledger) (a : Allowance)
    → IsLedger l
    → IsReservable now i l a
    → IsLedger (holding i l)
unfolding holding to_reservation hold
holding-IsLedger now i l a v c = record {
  funded =
      All-modify_where (IsFunded (to_reservation i ∷ l.reservations))
        (λ b. b.address == i.allowance_address) (hold i.amount_atomic) l.allowances
        (λ b p. hold_row-IsFunded i l.reservations a b c.within_max p)
        (All-both (IsFunded l.reservations) (λ b. (b.address == i.allowance_address) ≡ true → b ≡ a)
          l.allowances v.funded
          (find-only (λ b. b.address) i.allowance_address l.allowances v.addresses_distinct
            c.found));
  addresses_distinct = rw (holding-addresses i l) v.addresses_distinct;
  ids_distinct = (c.fresh_id, v.ids_distinct);
  keys_distinct = (c.fresh_key, v.keys_distinct);
  owned =
      subst (IsOwned (holding i l).reservations) (sym (holding-addresses i l))
        ((find-mem (λ b. b.address) i.allowance_address l.allowances c.found).1, v.owned);
}

-- After a reservation that succeeded the ledger is one again, and the payment key is taken.
pub reserve-IsLedger :
    (now : ℕ) (i : ReservationInput) (l l' : Ledger) (r : Reservation)
    → IsLedger l
    → reserve_allowance_spend now i l ≡ ok (l', r)
    → IsLedger l' × (r ≡ to_reservation i) × (l' ≡ holding i l)
reserve-IsLedger now i l l' r v h =
    let (a, c) = reserve-IsReservable now i l h in
    let same : l' ≡ holding i l = cc (h, reserve-eq now i l a v c) in
    let echo : r ≡ to_reservation i = cc (h, reserve-eq now i l a v c) in
    (rw same (holding-IsLedger now i l a v c), echo, same)

-- A payment key that the ledger knows is never reserved again.
pub reserve_replayed :
    (now : ℕ) (i : ReservationInput) (l : Ledger) {p : Ledger × Reservation}
    → mem i.payment_key (payment_keys l.reservations) ≡ true
    → reserve_allowance_spend now i l ≢ ok p
reserve_replayed now i l taken h =
    let (a, c) = reserve-IsReservable now i l h in cc (taken, c.fresh_key)
