-- ===== src/Settlement/Validating.antt =====
-- What a validated settlement is: the transaction moved the money.
use meterkit.Prelude.{
  ℕ, zero, suc, ◌+◌, ◌≤◌, ◌<◌, String, ◌≡◌, ◌≢◌, ◌↔◌, refl, ◌⊎◌, inl, inr, true, Result, ok, arith,
  subst, sym,
}
use meterkit.Settlement.{
  Meta, SettlementError, Reply, failing, absent, found, Transfer, owned, owner_mint_delta, judge,
  validate_from, validate, retry,
}

-- The transaction has no error, gives the recipient exactly the amount in the token, and takes at
-- least the amount from the payer.
pub record IsPaid (i : Transfer) (m : Meta) : Type 0 where
  pub clean : m.err_is_null ≡ true
  pub received :
      owned i.pay_to i.mint m.post_token_balances
      ≡ owned i.pay_to i.mint m.pre_token_balances + i.amount_atomic
  pub given :
      owned i.payer i.mint m.post_token_balances + i.amount_atomic
      ≤ owned i.payer i.mint m.pre_token_balances

judge-IsPaid : (i : Transfer) (m : Meta) → (judge i m ≡ ok tt) ↔ IsPaid i m
unfolding judge owner_mint_delta
judge-IsPaid i m = (
  (λ h. record {
    clean = ground (arith, h);
    received = ground (arith, h);
    given = ground (arith, h);
  }),
  (λ p. ground (arith, p.clean, p.received, p.given)),
)

-- The attempt that finds the transaction: all before it found none.
pub record IsFoundAt (request : ℕ → String → Reply) (i : Transfer) (first end : ℕ) : Type 0 where
  pub attempt : ℕ
  pub meta : Meta
  pub from : first ≤ attempt
  pub within : attempt < end
  pub answer : request attempt i.signature ≡ found meta
  pub earlier : (k : ℕ) → first ≤ k → k < attempt → request k i.signature ≡ absent
  pub paid : IsPaid i meta

le_cases : (a b : ℕ) → a ≤ b → (a ≡ b) ⊎ (a + 1 ≤ b)
le_cases a b h = omega (arith, h)

Reply-cases : (r : Reply) → (r ≡ failing) ⊎ ((r ≡ absent) ⊎ ((m : Meta) × (r ≡ found m)))
Reply-cases failing = inl refl
Reply-cases absent = inr (inl refl)
Reply-cases (found m) = inr (inr (m, refl))

module _ (request : ℕ → String → Reply) (i : Transfer) where
  -- The attempt is the first one, or comes after a first one that found nothing.
  later :
      (first end : ℕ)
      → request first i.signature ≡ absent
      → IsFoundAt request i (first + 1) end
      → IsFoundAt request i first end
  later first end a f = record {
    attempt = f.attempt;
    meta = f.meta;
    from = omega (arith, f.from);
    within = f.within;
    answer = f.answer;
    earlier = λ k ge lt. elim (le_cases first k ge) [
      | inl same ↦ subst (λ n. request n i.signature ≡ absent) same a
      | inr gt ↦ f.earlier k gt lt
    ];
    paid = f.paid;
  }

  sooner :
      (first end : ℕ)
      → request first i.signature ≡ absent
      → IsFoundAt request i first end
      → IsFoundAt request i (first + 1) end
  sooner first end a f = elim (le_cases first f.attempt f.from) [
    | inl same ↦ cc (subst (λ n. request n i.signature ≡ absent) same a, f.answer)
    | inr gt ↦ record {
      attempt = f.attempt;
      meta = f.meta;
      from = gt;
      within = f.within;
      answer = f.answer;
      earlier = λ k ge lt. f.earlier k (omega (arith, ge)) lt;
      paid = f.paid;
    }
  ]

  -- Where an attempt is left to find it, the loop goes on.
  waiting :
      (left first end : ℕ) (r : Result SettlementError (Unit {0}))
      → IsFoundAt request i first end
      → end ≤ first + left
      → r ≡ ok tt
      → retry left r ≡ ok tt
  waiting zero first end r f e h = absurd (omega (arith, f.from, f.within, e))
  waiting (suc left) first end r f e h = h

  at_once :
      (first left : ℕ) (m : Meta)
      → request first i.signature ≡ found m
      → IsPaid i m
      → IsFoundAt request i first (first + suc left)
  at_once first left m e p = record {
    attempt = first;
    meta = m;
    from = omega arith;
    within = omega arith;
    answer = e;
    earlier = λ k ge lt. absurd (omega (arith, ge, lt));
    paid = p;
  }

  validate_from-found :
      (first left : ℕ)
      → validate_from request i first (suc left) ≡ ok tt
      → IsFoundAt request i first (first + suc left)
  unfolding validate_from
  validate_from-found first zero h = elim (Reply-cases (request first i.signature)) [
    | inl e ↦ cc (rw e at h)
    | inr (inl e) ↦ cc (rw e at h)
    | inr (inr (m, e)) ↦ at_once first zero m e ((judge-IsPaid i m).0 (rw e at h))
  ]
  validate_from-found first (suc left) h = elim (Reply-cases (request first i.signature)) [
    | inl e ↦ cc (rw e at h)
    | inr (inl e) ↦
        let rest = validate_from-found (first + 1) left (rw e at h) in
        let same : first + 1 + suc left ≡ first + suc (suc left) = omega arith in
        later first (first + suc (suc left)) e (subst (IsFoundAt request i (first + 1)) same rest)
    | inr (inr (m, e)) ↦ at_once first (suc left) m e ((judge-IsPaid i m).0 (rw e at h))
  ]

  paid_now :
      (first end : ℕ) (m : Meta)
      → IsFoundAt request i first end
      → request first i.signature ≡ found m
      → IsPaid i m
  paid_now first end m f e = elim (le_cases first f.attempt f.from) [
    | inl same ↦
        let here = subst (λ n. request n i.signature ≡ found f.meta) (sym same) f.answer in
        let this : f.meta ≡ m = cc (here, e) in subst (IsPaid i) this f.paid
    | inr gt ↦ cc (e, f.earlier first (omega arith) (omega (arith, gt)))
  ]

  never_failing :
      (first end : ℕ) → IsFoundAt request i first end → request first i.signature ≢ failing
  never_failing first end f e =
      let r : (failing ≡ absent) ⊎ ((m : Meta) × (failing ≡ found m)) =
        elim (le_cases first f.attempt f.from) [
          | inl same ↦ inr (
            f.meta,
            cc (e, subst (λ n. request n i.signature ≡ found f.meta) (sym same) f.answer),
          )
          | inr gt ↦ inl (cc (e, f.earlier first (omega arith) (omega (arith, gt))))
        ] in
      elim r [ inl a ↦ cc (a) | inr (m, a) ↦ cc (a) ]

  found-validate_from :
      (first left : ℕ)
      → IsFoundAt request i first (first + left)
      → validate_from request i first left ≡ ok tt
  unfolding validate_from
  found-validate_from first zero f = refl
  found-validate_from first (suc left) f = elim (Reply-cases (request first i.signature)) [
    | inl e ↦ absurd (never_failing first (first + suc left) f e)
    | inr (inr (m, e)) ↦ rw e ((judge-IsPaid i m).1 (paid_now first (first + suc left) m f e))
    | inr (inl e) ↦
        let same : first + suc left ≡ first + 1 + left = omega arith in
        let rest =
          subst (IsFoundAt request i (first + 1)) same (sooner first (first + suc left) e f) in
        rw e (
          waiting left (first + 1) (first + 1 + left) (validate_from request i (first + 1) left)
            rest (omega arith) (found-validate_from (first + 1) left rest))
  ]

-- With at least one attempt, `validate` succeeds exactly when one of the attempts, all before it
-- having found no transaction, finds one without an error that gives the recipient exactly the amount
-- and takes at least the amount from the payer.
pub validate-ok_iff :
    (request : ℕ → String → Reply) (attempts : ℕ) (i : Transfer)
    → 0 < attempts
    → (validate request attempts i ≡ ok tt) ↔ IsFoundAt request i 0 attempts
unfolding validate
validate-ok_iff request zero i h = absurd (omega (arith, h))
validate-ok_iff request (suc n) i h =
    let same : 0 + suc n ≡ suc n = omega arith in
    (
      (λ h. subst (IsFoundAt request i 0) same (validate_from-found request i 0 n h)),
      (λ f. found-validate_from request i 0 (suc n) (subst (IsFoundAt request i 0) (sym same) f)),
    )

-- A validated settlement of a positive amount is no transfer of the payer to itself.
pub validate-distinct :
    (request : ℕ → String → Reply) (attempts : ℕ) (i : Transfer)
    → 0 < attempts
    → 0 < i.amount_atomic
    → validate request attempts i ≡ ok tt
    → i.payer ≢ i.pay_to
validate-distinct request attempts i a p h same =
    let f = (validate-ok_iff request attempts i a).0 h in
    absurd (
      omega (
        arith,
        p,
        f.paid.received,
        subst
            (λ w.
              owned w i.mint f.meta.post_token_balances + i.amount_atomic
              ≤ owned w i.mint f.meta.pre_token_balances)
            same f.paid.given,
      ))
