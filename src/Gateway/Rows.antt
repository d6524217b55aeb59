-- ===== src/Gateway/Rows.antt =====
-- The rows of one wallet under the operations of another: `saveAllowance`, `revokeAllowance`,
-- `beginAllowanceRevocation` and `deleteAllowanceMetadata` of packages/database/src/index.ts.
use meterkit.Prelude.{
  ℕ, String, ◌≡◌, ◌∙◌, refl, ap, sym, Bool, true, false, not, ◌&&◌, ◌==◌, Option, none, some, List,
  [], ◌∷◌, filter, any, modify_where, update_where, cons_some, Result, ok, Option-cases, Bool-cases,
  inl, inr, arith, eq_iff, or_throw-ok,
}
use meterkit.Spend.{
  Ledger, Allowance, AllowanceRecord, SpendError, constraint_violated, is_none, is_active, checked,
  save_allowance, to_row, merge_row, upsert_allowance, with_allowances, delete_allowance_metadata,
  revoke_allowance, begin_allowance_revocation, update_allowances,
}
use meterkit.Spend.Invariant.{checked-eq-some}

-- The rows of a wallet.
abbrev pub rows_of : String → Ledger → List Allowance
rows_of o l = filter (λ a. a.owner_wallet == o) l.allowances

module _ (w o : String) (ne : (w == o) ≡ false) where
  filter-modify_where :
      (p : Allowance → Bool) (f : Allowance → Allowance) (xs : List Allowance)
      → ((x : Allowance) → p x ≡ true → x.owner_wallet ≡ w)
      → ((x : Allowance) → (f x).owner_wallet ≡ x.owner_wallet)
      → filter (λ a. a.owner_wallet == o) (modify_where p f xs)
        ≡ filter (λ a. a.owner_wallet == o) xs
  filter-modify_where p f [] hit same = refl
  filter-modify_where p f (x ∷ xs) hit same =
      let ih = filter-modify_where p f xs hit same in
      elim (Bool-cases (p x)) [
        | inl e ↦
            let mine : (x.owner_wallet == o) ≡ false = rw (hit x e) ne in
            let still : ((f x).owner_wallet == o) ≡ false = rw (same x) mine in
            rw (e, mine, still) ih
        | inr e ↦ rw (e, ih) refl
      ]

  filter-filter :
      (p : Allowance → Bool) (xs : List Allowance)
      → ((x : Allowance) → p x ≡ true → x.owner_wallet ≡ w)
      → filter (λ a. a.owner_wallet == o) (filter (λ a. not (p a)) xs)
        ≡ filter (λ a. a.owner_wallet == o) xs
  filter-filter p [] hit = refl
  filter-filter p (x ∷ xs) hit =
      let ih = filter-filter p xs hit in
      elim (Bool-cases (p x)) [
        | inl e ↦ let mine : (x.owner_wallet == o) ≡ false = rw (hit x e) ne in rw (e, mine) ih
        | inr e ↦ rw (e, ih) refl
      ]

  filter-update_where :
      (p : Allowance → Bool) (f : Allowance → Option Allowance) (xs ys : List Allowance)
      → ((x : Allowance) → p x ≡ true → x.owner_wallet ≡ w)
      → ((x y : Allowance) → f x ≡ some y → y.owner_wallet ≡ x.owner_wallet)
      → update_where p f xs ≡ some ys
      → filter (λ a. a.owner_wallet == o) ys ≡ filter (λ a. a.owner_wallet == o) xs
  unfolding update_where
  filter-update_where p f [] ys hit same e = let nil : ys ≡ [] = cc e in rw nil refl
  filter-update_where p f (x ∷ xs) ys hit same e = elim (Bool-cases (p x)) [
    | inl t ↦ elim (Option-cases (f x)) [
      | inl g ↦ cc (rw (t, g) at e)
      | inr (y, g) ↦
          let mine : (x.owner_wallet == o) ≡ false = rw (hit x t) ne in
          let still : (y.owner_wallet == o) ≡ false = rw (same x y g) mine in
          rest (λ zs n. filter-update_where p f xs zs hit same n) y (rw (t, g) at e)
            (rw (mine, still) (λ zs h. h))
    ]
    | inr t ↦
        rest (λ zs n. filter-update_where p f xs zs hit same n) x (rw t at e) (λ zs h. rw h refl)
  ]
    where
      rest :
          ((zs : List Allowance)
            → update_where p f xs ≡ some zs
            → filter (λ a. a.owner_wallet == o) zs ≡ filter (λ a. a.owner_wallet == o) xs)
          → (y : Allowance) → cons_some y (update_where p f xs) ≡ some ys
          → ((zs : List Allowance)
              → filter (λ a. a.owner_wallet == o) zs ≡ filter (λ a. a.owner_wallet == o) xs
              → filter (λ a. a.owner_wallet == o) (y ∷ zs)
                ≡ filter (λ a. a.owner_wallet == o) (x ∷ xs))
          → filter (λ a. a.owner_wallet == o) ys ≡ filter (λ a. a.owner_wallet == o) (x ∷ xs)
      rest ih y g step = elim (Option-cases (update_where p f xs)) [
        | inl n ↦ cc (rw n at g)
        | inr (zs, n) ↦ let whole : ys ≡ y ∷ zs = cc (rw n at g) in rw whole (step zs (ih zs n))
      ]

  with_allowances-ok :
      (l l' : Ledger) (m : Option (List Allowance))
      → with_allowances l m ≡ ok l'
      → (rows : List Allowance) × (m ≡ some rows) × (l'.allowances ≡ rows)
  unfolding with_allowances
  with_allowances-ok l l' none h = cc h
  with_allowances-ok l l' (some rows) h =
      let same : record l { allowances = rows } ≡ l' = cc h in
      (rows, refl, ap (λ k. k.allowances) (sym same))

  merged-owner :
      (row x y : Allowance) → checked (merge_row row x) ≡ some y → y.owner_wallet ≡ x.owner_wallet
  unfolding merge_row
  merged-owner row x y h = ap (λ a. a.owner_wallet) (checked-eq-some (merge_row row x) h).0

  pub upsert_allowance-others :
      (row : Allowance) (l l' : Ledger)
      → row.owner_wallet ≡ w
      → upsert_allowance row l ≡ ok l'
      → rows_of o l' ≡ rows_of o l
  unfolding upsert_allowance
  upsert_allowance-others row l l' mine h =
      elim (Bool-cases (any (λ a. a.address == row.address) l.allowances)) [
        | inl e ↦
            let (rows, u, same) = with_allowances-ok l l' _ (rw e at h) in
            ap (filter (λ a. a.owner_wallet == o)) same
            ∙ filter-update_where
                (λ a. a.address == row.address && a.owner_wallet == row.owner_wallet)
                (λ a. checked (merge_row row a)) l.allowances rows
                (λ x t. ground (arith, t, eq_iff x.owner_wallet row.owner_wallet, mine))
                (merged-owner row) u
        | inr e ↦
            let out : ◌≡◌ {A = Result SpendError Ledger}
                (ok (record l { allowances = row ∷ l.allowances })) (ok l') =
              rw e at h in
            let same : record l { allowances = row ∷ l.allowances } ≡ l' = cc out in
            let others : (row.owner_wallet == o) ≡ false = rw mine ne in rw (← same, others) refl
      ]

  pub save_allowance-others :
      (now : ℕ) (a : AllowanceRecord) (l l' : Ledger)
      → a.owner_wallet ≡ w
      → save_allowance now a l ≡ ok l'
      → rows_of o l' ≡ rows_of o l
  unfolding save_allowance to_row
  save_allowance-others now a l l' mine h =
      let (row, c, h₁) = or_throw-ok (checked (to_row now a)) constraint_violated h in
      upsert_allowance-others row l l'
        (ap (λ r. r.owner_wallet) (checked-eq-some (to_row now a) c).0 ∙ mine) h₁

  pub revoke_allowance-others :
      (now : ℕ) (address : String) (signature : Option String) (l : Ledger)
      → rows_of o (revoke_allowance now w address signature l).0 ≡ rows_of o l
  unfolding revoke_allowance update_allowances
  revoke_allowance-others now address signature l =
      filter-modify_where
        (λ a. a.address == address && (a.owner_wallet == w && is_none a.revoked_at)) _ l.allowances
        (λ x t. ground (arith, t, eq_iff x.owner_wallet w)) (λ x. refl)

  pub begin_revocation-others :
      (address : String) (l : Ledger)
      → rows_of o (begin_allowance_revocation w address l).0 ≡ rows_of o l
  unfolding begin_allowance_revocation update_allowances
  begin_revocation-others address l =
      filter-modify_where (λ a. a.address == address && (a.owner_wallet == w && is_active a.status))
        _ l.allowances (λ x t. ground (arith, t, eq_iff x.owner_wallet w)) (λ x. refl)

  pub delete_metadata-others :
      (address : String) (l : Ledger)
      → rows_of o (delete_allowance_metadata w address l).0 ≡ rows_of o l
  unfolding delete_allowance_metadata
  delete_metadata-others address l =
      elim (Bool-cases (any (λ a. a.owner_wallet == w && a.address == address) l.allowances)) [
        | inl e ↦ rw e (
            filter-filter (λ a. a.owner_wallet == w && a.address == address) l.allowances
              (λ x t. ground (arith, t, eq_iff x.owner_wallet w)))
        | inr e ↦ rw e refl
      ]
