-- ===== src/Spend/Expiry.antt =====
-- Releasing expired reservations: the ledger's part of `cleanupExpired`.
use meterkit.Prelude.{
  ℕ, ◌≤◌, ◌≡◌, refl, sym, ◌∙◌, true, false, ◌&&◌, some, List, [], ◌∷◌, ◌==◌, eq_iff, mem, leb, All,
  All-impl, All-filter, All-take, All-sort_by, All-filter_self, All-find_self, All-both, filter,
  Distinct, Distinct-filter, Distinct-take, Distinct-sort_by, find, find-modify_where_ne, length,
  modify_where, ok, arith, and-true, leb→le,
}
use meterkit.Spend.{
  Reservation, Ledger, released, is_reserved, settle, close, unhold_all, ids, expired_reservations,
  release_expired,
}
use meterkit.Spend.Invariant.{IsLedger, reservation_ids}
use meterkit.Spend.Settling.{settle-total, after-IsLedger}
use meterkit.Spend.Closing.{after}

-- A reservation that is in the table and open.
abbrev pub IsOpen : Ledger → Reservation → Type 0
IsOpen l r =
    (find (λ q. q.reservation_id == r.reservation_id) l.reservations ≡ some r)
    × (is_reserved r.status ≡ true)

-- The reservations are closed one after another.
unfoldable pub close_all : List Reservation → Ledger → Ledger
close_all [] l = l
close_all (r ∷ rs) l = close_all rs (after released r r.reservation_id l)

pub IsOpen-after :
    (l : Ledger) (r : Reservation) (rs : List Reservation)
    → mem r.reservation_id (reservation_ids rs) ≡ false
    → All (IsOpen l) rs
    → All (IsOpen (after released r r.reservation_id l)) rs
unfolding after close
IsOpen-after l r [] m h = tt
IsOpen-after l r (q ∷ qs) m h =
    let ne : (q.reservation_id == r.reservation_id) ≡ false =
      ground (
        arith,
        eq_iff q.reservation_id r.reservation_id,
        eq_iff r.reservation_id q.reservation_id,
      ) in
    (
      (
        find-modify_where_ne (λ x. x.reservation_id) q.reservation_id r.reservation_id
              (close released) l.reservations ne (λ x. refl)
            ∙ h.0.0,
        h.0.1,
      ),
      IsOpen-after l r qs (ground arith) h.1,
    )

pub unhold_all-close_all :
    (rs : List Reservation) (l : Ledger)
    → IsLedger l
    → Distinct (reservation_ids rs)
    → All (IsOpen l) rs
    → (unhold_all rs l.allowances ≡ some (close_all rs l).allowances) × IsLedger (close_all rs l)
unfolding unhold_all close_all settle
unhold_all-close_all [] l v d h = (refl, v)
unhold_all-close_all (r ∷ rs) l v d h =
    let (total, v') =
      unhold_all-close_all rs (after released r r.reservation_id l)
        (after-IsLedger released r r.reservation_id l v h.0.0 h.0.1) d.1
        (IsOpen-after l r rs d.0 h.1) in
    (rw (settle-total released r r.reservation_id l v h.0.0 h.0.1) total, v')

-- One UPDATE over a set of keys is the sequence of the UPDATEs by each.
close-ids :
    (r : Reservation) (rs qs : List Reservation)
    → modify_where (λ q. mem q.reservation_id (ids (r ∷ rs))) (close released) qs
      ≡ modify_where
          (λ q. mem q.reservation_id (ids rs))
          (close released)
          (modify_where (λ q. q.reservation_id == r.reservation_id) (close released) qs)
unfolding ids close
close-ids r rs [] = refl
close-ids r rs (q ∷ qs) = ground (arith, close-ids r rs qs)

close_none :
    (qs : List Reservation)
    → modify_where (λ q. mem q.reservation_id (ids [])) (close released) qs ≡ qs
unfolding ids
close_none [] = refl
close_none (q ∷ qs) = rw (close_none qs)

reservations-close_all :
    (rs : List Reservation) (l : Ledger)
    → (close_all rs l).reservations
      ≡ modify_where (λ q. mem q.reservation_id (ids rs)) (close released) l.reservations
unfolding close_all
reservations-close_all [] l = sym (close_none l.reservations)
reservations-close_all (r ∷ rs) l =
    reservations-close_all rs (after released r r.reservation_id l)
    ∙ (unfold after in sym (close-ids r rs l.reservations))

module _ (now : ℕ) (rs : List Reservation) (d : Distinct (reservation_ids rs)) where
  pub expired-Distinct : Distinct (reservation_ids (expired_reservations now rs))
  unfolding expired_reservations
  expired-Distinct =
      Distinct-take (λ r. r.reservation_id) 500 _
        (Distinct-sort_by (λ r. r.reservation_id) (λ r. r.expires_at) _
          (Distinct-filter (λ r. r.reservation_id) _ rs d))

  expired_all {ℓ} :
      (P : Reservation → Type ℓ)
      → All P (filter (λ r. is_reserved r.status && leb r.expires_at now) rs)
      → All P (expired_reservations now rs)
  unfolding expired_reservations
  expired_all P h = All-take P 500 _ (All-sort_by P (λ r. r.expires_at) _ h)

  -- What a cleanup takes is in the table, open, and at or past its expiry.
  pub expired_open :
      All
        (λ r.
          (find (λ q. q.reservation_id == r.reservation_id) rs ≡ some r)
          × (is_reserved r.status ≡ true)
          × (r.expires_at ≤ now))
        (expired_reservations now rs)
  expired_open = expired_all _ (
      All-impl _
        (λ r p. let (open_, late) = and-true p.1 in (p.0, open_, leb→le r.expires_at now late))
        (All-both (λ r. find (λ q. q.reservation_id == r.reservation_id) rs ≡ some r)
          (λ r. (is_reserved r.status && leb r.expires_at now) ≡ true) _
          (All-filter _ _ rs (All-find_self (λ r. r.reservation_id) rs d))
          (All-filter_self (λ r. is_reserved r.status && leb r.expires_at now) rs)))

-- On a consistent ledger the cleanup never throws: it closes, as released, exactly the reservations
-- that it took, reports their number, and the ledger stays consistent.
pub release_expired-IsLedger :
    (now : ℕ) (l : Ledger)
    → IsLedger l
    → (release_expired now l
        ≡ ok (
          close_all (expired_reservations now l.reservations) l,
          length (expired_reservations now l.reservations),
        ))
      × IsLedger (close_all (expired_reservations now l.reservations) l)
unfolding release_expired
release_expired-IsLedger now l v =
    let taken = expired_reservations now l.reservations in
    let (total, v') =
      unhold_all-close_all taken l v (expired-Distinct now l.reservations v.ids_distinct)
        (All-impl taken (λ r p. (p.0, p.1)) (expired_open now l.reservations v.ids_distinct)) in
    (rw (total, sym (reservations-close_all taken l)) refl, v')
