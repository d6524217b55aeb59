-- ===== src/Spend/Cleaning.antt =====
-- Repeated cleanups of packages/database/src/index.ts: each `cleanupExpired` takes 500 reservations at
-- most, and the process calls it again and again.
use meterkit.Prelude.{
  ℕ, zero, suc, ◌+◌, ◌-◌, ◌*◌, ◌≤◌, ◌≡◌, refl, sym, ◌∙◌, ap, inl, inr, Bool, true, ◌&&◌, some, List,
  [], ◌∷◌, ◌==◌, if◌then◌else◌, eq_iff, leb, le→leb, All, All-impl, filter, take, insert_by,
  sort_by, map, Distinct, find, length, modify_where, modify_where-absent, sum_by,
  sum_by-modify_where, ok, ◌>>=◌, Result, arith, Bool-cases,
}
use meterkit.Spend.{
  Reservation, Ledger, SpendError, released, is_reserved, close, expired_reservations,
  release_expired,
}
use meterkit.Spend.Invariant.{IsLedger, reservation_ids}
use meterkit.Spend.Settling.{after-IsLedger}
use meterkit.Spend.Closing.{after}
use meterkit.Spend.Expiry.{
  IsOpen, close_all, IsOpen-after, expired_open, expired-Distinct, release_expired-IsLedger,
}

-- Some cleanups at one time, one after another.
unfoldable pub release_times : ℕ → ℕ → Ledger → Result SpendError Ledger
release_times zero now l = ok l
release_times (suc n) now l = do p ← release_expired now l; release_times n now p.0

-- What a reservation is once nothing is overdue.
unfoldable pub cleaned : ℕ → Reservation → Reservation
cleaned now r = if is_reserved r.status && leb r.expires_at now then close released r else r

module _ (now : ℕ) where
  abbrev is_due : Reservation → Bool
  is_due r = is_reserved r.status && leb r.expires_at now

  abbrev due : Reservation → ℕ
  due r = if is_due r then 1 else 0

  sum-filter : (rs : List Reservation) → length (filter is_due rs) ≡ sum_by due rs
  sum-filter [] = refl
  sum-filter (r ∷ rs) = ground (arith, sum-filter rs)

  cleaned-close :
      (r : Reservation) (rs : List Reservation)
      → Distinct (reservation_ids rs)
      → find (λ q. q.reservation_id == r.reservation_id) rs ≡ some r
      → is_due r ≡ true
      → map
          (cleaned now)
          (modify_where (λ q. q.reservation_id == r.reservation_id) (close released) rs)
        ≡ map (cleaned now) rs
  unfolding cleaned close
  cleaned-close r [] d f e = refl
  cleaned-close r (q ∷ qs) d f e = elim (Bool-cases (q.reservation_id == r.reservation_id)) [
    | inl k ↦
        let hit : some q ≡ some r = rw k at f in
        let same : q ≡ r = cc in
        rw
          (
            k,
            modify_where-absent (λ x. x.reservation_id) r.reservation_id (close released) qs
                (rw ((eq_iff q.reservation_id r.reservation_id).0 k) at (d.0)),
            same,
            e,
          )
          refl
    | inr k ↦ rw (k, cleaned-close r qs d.1 (rw k at f) e)
  ]

  due-close :
      (r : Reservation) (rs : List Reservation)
      → Distinct (reservation_ids rs)
      → find (λ q. q.reservation_id == r.reservation_id) rs ≡ some r
      → is_due r ≡ true
      → sum_by due (modify_where (λ q. q.reservation_id == r.reservation_id) (close released) rs)
          + 1
        ≡ sum_by due rs
  unfolding close
  due-close r rs d f e =
      let was : due r ≡ 1 = rw e refl in
      let counted =
        sum_by-modify_where (λ q. q.reservation_id) r.reservation_id (close released) due rs d f in
      omega (arith, counted, was)

  due-none : (rs : List Reservation) → sum_by due rs ≡ 0 → map (cleaned now) rs ≡ rs
  unfolding cleaned
  due-none [] h = refl
  due-none (r ∷ rs) h = ground (arith, due-none rs)

  -- Closing overdue reservations lowers their number by one each, and leaves what is to become of every
  -- reservation.
  close_all-due :
      (rs : List Reservation) (l : Ledger)
      → IsLedger l
      → Distinct (reservation_ids rs)
      → All (IsOpen l) rs
      → All (λ r. is_due r ≡ true) rs
      → (sum_by due (close_all rs l).reservations + length rs ≡ sum_by due l.reservations)
        × (map (cleaned now) (close_all rs l).reservations ≡ map (cleaned now) l.reservations)
  unfolding close_all after
  close_all-due [] l v d h e = (omega arith, refl)
  close_all-due (r ∷ rs) l v d h e =
      let (counted, kept) =
        close_all-due rs (after released r r.reservation_id l)
          (after-IsLedger released r r.reservation_id l v h.0.0 h.0.1) d.1
          (IsOpen-after l r rs d.0 h.1) e.1 in
      (
        omega (arith, counted, due-close r l.reservations v.ids_distinct h.0.0 e.0),
        kept ∙ cleaned-close r l.reservations v.ids_distinct h.0.0 e.0,
      )

module _ {ℓ} {A : Type ℓ} where
  length-take : (n : ℕ) (xs : List A) → length (take n xs) + (length xs - n) ≡ length xs
  length-take zero xs = omega arith
  length-take (suc n) [] = omega arith
  length-take (suc n) (x ∷ xs) = omega (arith, length-take n xs)

  length-insert_by : (f : A → ℕ) (x : A) (xs : List A) → length (insert_by f x xs) ≡ suc (length xs)
  length-insert_by f x [] = refl
  length-insert_by f x (y ∷ ys) = ground (arith, length-insert_by f x ys)

  length-sort_by : (f : A → ℕ) (xs : List A) → length (sort_by f xs) ≡ length xs
  length-sort_by f [] = refl
  length-sort_by f (x ∷ xs) = length-insert_by f x (sort_by f xs) ∙ ap suc (length-sort_by f xs)

length-expired :
    (now : ℕ) (rs : List Reservation)
    → length (expired_reservations now rs) + (sum_by (due now) rs - 500) ≡ sum_by (due now) rs
unfolding expired_reservations
length-expired now rs =
    let sorted = length-sort_by (λ r. r.expires_at) (filter (is_due now) rs) in
    let taken = length-take 500 (sort_by (λ r. r.expires_at) (filter (is_due now) rs)) in
    omega (arith, sorted, taken, sum-filter now rs)

-- Enough cleanups are one without a limit. When no more than 500 reservations for each cleanup are open
-- and at or past their expiry, on a consistent ledger, the cleanups do not throw, the ledger is
-- consistent afterwards, and exactly those reservations have become released; every other one is as
-- it was.
pub release_times-IsCleaned :
    (n now : ℕ) (l : Ledger)
    → IsLedger l
    → length (filter (λ r. is_reserved r.status && leb r.expires_at now) l.reservations) ≤ 500 * n
    → (l' : Ledger) × (release_times n now l ≡ ok l')
      × IsLedger l'
      × (l'.reservations ≡ map (cleaned now) l.reservations)
unfolding release_times
release_times-IsCleaned zero now l v h =
    (l, refl, v, sym (due-none now l.reservations (omega (arith, sum-filter now l.reservations))))
release_times-IsCleaned (suc n) now l v h =
    let taken = expired_reservations now l.reservations in
    let (released_, v') = release_expired-IsLedger now l v in
    let open_ = expired_open now l.reservations v.ids_distinct in
    let (counted, kept) =
      close_all-due now taken l v (expired-Distinct now l.reservations v.ids_distinct)
        (All-impl taken (λ r p. (p.0, p.1)) open_)
        (All-impl taken (λ r p. ground (arith, le→leb r.expires_at now p.2)) open_) in
    let (l', e, w, same) = release_times-IsCleaned n now (close_all taken l) v' (
      omega (
        arith,
        sum-filter now (close_all taken l).reservations,
        sum-filter now l.reservations,
        counted,
        length-expired now l.reservations,
      )) in
    (l', rw released_ e, w, same ∙ kept)
