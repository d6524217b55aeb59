-- ===== src/Spend/Upkeep.antt =====
-- The operations that write the allowances and no reservation: registration, revocation and observation
-- keep the invariant.
use meterkit.Prelude.{
  ℕ, String, ◌≡◌, refl, sym, subst, ◌∙◌, inl, inr, Bool, true, false, ◌&&◌, Option, none, some,
  List, [], ◌∷◌, ◌==◌, eq_iff, if◌then◌else◌, mem, All, All-impl, All-modify_where, any, any-mem,
  map-modify_where, update_where, update_where-All, Bool-cases, ok, or_throw-ok, arith,
}
use meterkit.Spend.{
  Allowance, AllowanceRecord, Reservation, ReservationStatus, Ledger, Observation, row_check,
  checked, is_reserved, to_row, merge_row, with_allowances, upsert_allowance, save_allowance,
  update_allowances, revoke_allowance, begin_allowance_revocation, set_allowance_observation_status,
}
use meterkit.Spend.Invariant.{
  IsFunded, IsOwned, IsLedger, total, is_consumed, addresses, checked-eq-some,
}

-- An UPDATE that leaves the address and the amounts of each row.
module _ (f : Allowance → Allowance) (same_address : (a : Allowance) → (f a).address ≡ a.address)
    (same_check : (a : Allowance) → row_check (f a) ≡ row_check a)
    (same_held : (a : Allowance) → (f a).reserved_atomic ≡ a.reserved_atomic)
    (same_spent : (a : Allowance) → (f a).spent_atomic ≡ a.spent_atomic) where
  rewritten-IsFunded :
      (rs : List Reservation) (p : Allowance → Bool) (a : Allowance)
      → IsFunded rs a
      → IsFunded rs (if p a then f a else a)
  rewritten-IsFunded rs p a h = elim (Bool-cases (p a)) [
    | inl e ↦ rw e (record {
      bounded = same_check a ∙ h.bounded;
      held = rw (same_address a, same_held a) (h.held);
      spent = rw (same_address a, same_spent a) (h.spent);
    })
    | inr e ↦ rw e h
  ]

  update_allowances-IsLedger :
      (p : Allowance → Bool) (l : Ledger) → IsLedger l → IsLedger (update_allowances p f l).0
  unfolding update_allowances
  update_allowances-IsLedger p l v =
      let keys = map-modify_where (λ a. a.address) p f l.allowances same_address in
      record {
        funded =
            All-modify_where (IsFunded l.reservations) p f l.allowances
              (rewritten-IsFunded l.reservations p) v.funded;
        addresses_distinct = rw keys v.addresses_distinct;
        ids_distinct = v.ids_distinct;
        keys_distinct = v.keys_distinct;
        owned = subst (IsOwned l.reservations) (sym keys) v.owned;
      }

pub revoke_allowance-IsLedger :
    (now : ℕ) (owner address : String) (s : Option String) (l : Ledger)
    → IsLedger l
    → IsLedger (revoke_allowance now owner address s l).0
unfolding revoke_allowance row_check
revoke_allowance-IsLedger now owner address s l v =
    update_allowances-IsLedger _ (λ a. refl) (λ a. refl) (λ a. refl) (λ a. refl) _ l v

pub begin_allowance_revocation-IsLedger :
    (owner address : String) (l : Ledger)
    → IsLedger l
    → IsLedger (begin_allowance_revocation owner address l).0
unfolding begin_allowance_revocation row_check
begin_allowance_revocation-IsLedger owner address l v =
    update_allowances-IsLedger _ (λ a. refl) (λ a. refl) (λ a. refl) (λ a. refl) _ l v

pub set_allowance_observation_status-IsLedger :
    (address : String) (o : Observation) (l : Ledger)
    → IsLedger l
    → IsLedger (set_allowance_observation_status address o l).0
unfolding set_allowance_observation_status row_check
set_allowance_observation_status-IsLedger address o l v =
    update_allowances-IsLedger _ (λ a. refl) (λ a. refl) (λ a. refl) (λ a. refl) _ l v

-- Reservations of another address do not count.
total-unowned :
    (p : ReservationStatus → Bool) (address : String) (rs : List Reservation) (known : List String)
    → IsOwned rs known
    → mem address known ≡ false
    → total p address rs ≡ 0
total-unowned p address [] known o m = refl
total-unowned p address (r ∷ rs) known o m =
    ground (arith, eq_iff address r.allowance_address, total-unowned p address rs known o.1 m)

IsOwned-cons :
    (address : String) (rs : List Reservation) (known : List String)
    → IsOwned rs known
    → IsOwned rs (address ∷ known)
IsOwned-cons address rs known o = All-impl rs (λ r m. ground (arith, m)) o

merge_row-IsFunded :
    (row : Allowance) (rs : List Reservation) (a b : Allowance)
    → IsFunded rs a
    → checked (merge_row row a) ≡ some b
    → IsFunded rs b × (b.address ≡ a.address)
unfolding merge_row
merge_row-IsFunded row rs a b f e =
    let (same, check) = checked-eq-some (merge_row row a) e in
    rw same (record { bounded = check; held = f.held; spent = f.spent }, refl)

-- The UPDATE of ON CONFLICT keeps the address and both counters, and checks each row.
merged-IsFunded :
    (row : Allowance) (owner : Allowance → Bool) (rs : List Reservation)
    (as_were rows : List Allowance)
    → All (IsFunded rs) as_were
    → update_where owner (λ a. checked (merge_row row a)) as_were ≡ some rows
    → All (IsFunded rs) rows × (addresses rows ≡ addresses as_were)
merged-IsFunded row owner rs as_were rows h e =
    update_where-All (IsFunded rs) (IsFunded rs) (λ a. a.address) owner
      (λ a. checked (merge_row row a)) as_were rows (λ a f. f) (merge_row-IsFunded row rs) h e

upsert_allowance-IsLedger :
    (row : Allowance) (l l' : Ledger)
    → IsLedger l
    → row_check row ≡ true
    → row.reserved_atomic ≡ 0
    → row.spent_atomic ≡ 0
    → upsert_allowance row l ≡ ok l'
    → IsLedger l'
unfolding upsert_allowance
upsert_allowance-IsLedger row l l' v check held spent h =
    elim (Bool-cases (any (λ a. a.address == row.address) l.allowances)) [
      | inl e ↦
          with_rows
            (update_where (λ a. a.address == row.address && a.owner_wallet == row.owner_wallet)
              (λ a. checked (merge_row row a)) l.allowances)
            refl (rw e at h)
      | inr e ↦
          let fresh : mem row.address (addresses l.allowances) ≡ false =
            sym (any-mem (λ a. a.address) row.address l.allowances) ∙ e in
          let same : l' ≡ record l { allowances = row ∷ l.allowances } = cc (rw e at h) in
          rw same (record {
            funded = (
              record {
                bounded = check;
                held = held ∙ sym (total-unowned is_reserved row.address _ _ v.owned fresh);
                spent = spent ∙ sym (total-unowned is_consumed row.address _ _ v.owned fresh);
              },
              v.funded,
            );
            addresses_distinct = (fresh, v.addresses_distinct);
            ids_distinct = v.ids_distinct;
            keys_distinct = v.keys_distinct;
            owned = IsOwned-cons row.address l.reservations _ v.owned;
          })
    ]
  where
    with_rows :
        (o : Option (List Allowance))
        → update_where
            (λ a. a.address == row.address && a.owner_wallet == row.owner_wallet)
            (λ a. checked (merge_row row a))
            l.allowances
          ≡ o
        → with_allowances l o ≡ ok l'
        → IsLedger l'
    with_rows none e g = cc
    with_rows (some rows) e g =
        let same : l' ≡ record l { allowances = rows } = cc in
        let (funded, keys) = merged-IsFunded row _ l.reservations l.allowances rows v.funded e in
        rw same (record {
          funded = funded;
          addresses_distinct = rw keys v.addresses_distinct;
          ids_distinct = v.ids_distinct;
          keys_distinct = v.keys_distinct;
          owned = subst (IsOwned l.reservations) (sym keys) v.owned;
        })

pub save_allowance-IsLedger :
    (now : ℕ) (input : AllowanceRecord) (l l' : Ledger)
    → IsLedger l
    → save_allowance now input l ≡ ok l'
    → IsLedger l'
unfolding save_allowance
save_allowance-IsLedger now input l l' v h =
    let (row, e, g) = or_throw-ok (checked (to_row now input)) _ h in
    let (same, check) = checked-eq-some (to_row now input) e in
    upsert_allowance-IsLedger row l l' v (rw same check) (rw same (unfold to_row in refl))
      (rw same (unfold to_row in refl)) g
