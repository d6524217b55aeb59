-- ===== src/Gateway/Recording.antt =====
-- What POST /v1/allowances of apps/gateway/src/server.ts has checked when it answers that an allowance is
-- recorded.
use meterkit.Prelude.{
  ℕ, ◌+◌, ◌*◌, ◌≤◌, ◌<◌, String, ◌≡◌, ◌∙◌, subst, ap, true, false, not, ◌&&◌, ◌==◌, Option, none,
  some, List, [], ◌∷◌, all, mem, All, and_then, and_then-some, Result, ok, err, Option-cases,
  Bool-cases, inl, inr, arith, eq_iff, and-true, not-true,
}
use meterkit.Platform.{Runtime, subscriptions_program}
use meterkit.Products.{Product}
use meterkit.Spend.{Ledger, SpendError, save_allowance}
use meterkit.Gateway.Isolation.{signed_in-cases}
use meterkit.Gateway.Session.{Database, session_owner}
use meterkit.Gateway.Receipt.{Transaction, Rpc, mentions, verify_allowance_receipt}
use meterkit.Gateway.Allowances.{
  answers, AllowanceBody, AllowanceRequest, parse_atomic, address_of, transaction_of,
  allowance_record, within_limits, check_allowance, record_allowance, keep_ledger, post_allowance,
}

-- A finalized transaction without an error, with each of the keys among its accounts.
pub record IsMentioned (rpc : Rpc) (signature : String) (required : List String) : Type 0 where
  pub transaction : Transaction
  pub found : rpc signature ≡ some transaction
  pub clean : transaction.has_error ≡ false
  pub keys : All (λ k. mem k transaction.account_keys ≡ true) required

all_keys :
    (ks required : List String)
    → all (λ k. not (k == "") && mem k ks) required ≡ true
    → All (λ k. mem k ks ≡ true) required
all_keys ks [] h = tt
all_keys ks (k ∷ required) h =
    let (this, rest) = and-true h in ((and-true this).1, all_keys ks required rest)

mentions-IsMentioned :
    (rpc : Rpc) (signature : String) (required : List String)
    → mentions required (rpc signature) ≡ true
    → IsMentioned rpc signature required
mentions-IsMentioned rpc signature required h = elim (Option-cases (rpc signature)) [
  | inl e ↦ cc (rw e at h)
  | inr (t, e) ↦
      let both : (not t.has_error && all (λ k. not (k == "") && mem k t.account_keys) required)
          ≡ true =
        rw e at h in
      let (clean, keys) = and-true both in
      record {
        transaction = t;
        found = e;
        clean = not-true clean;
        keys = all_keys t.account_keys required keys;
      }
]

module _ (rt : Runtime) (product : Product) (parse_date : String → Option ℕ) (rpc : Rpc) where
  -- The limits of the handler, and the receipt of the delegation.
  pub record IsRecorded (now : ℕ) (authorization : Option String) (b : AllowanceBody)
      (db db' : Database) : Type 0 where
    pub owner : String
    pub request : AllowanceRequest
    pub session : session_owner rt now authorization (some db) ≡ some owner
    pub asked : b.address ≡ some request.address
    pub mint : request.mint ≡ product.asset_mint
    pub positive : 0 < request.max_atomic
    pub limited : request.max_atomic ≤ 100_000_000
    pub future : now < request.expires_at
    pub near : request.expires_at ≤ now + 90 * 86_400_000
    pub receipt : IsMentioned rpc request.signature (
        owner ∷ request.address ∷ request.delegate_wallet ∷ request.mint ∷ subscriptions_program
        ∷ [])
    pub saved :
        save_allowance now (allowance_record rt product parse_date rpc now owner request) db.ledger
        ≡ ok db'.ledger

  address_of-some : (o : Option String) {a : String} → address_of o ≡ some a → o ≡ some a
  address_of-some none h = cc h
  address_of-some (some s) h = ground (arith, h)

  recorded-receipt :
      (now : ℕ) (w : String) (db db' : Database) (q : AllowanceRequest)
      → record_allowance rt product parse_date rpc now (w, db) (some q)
        ≡ (some db', answers 201 "recorded")
      → IsMentioned rpc q.signature
          (w ∷ q.address ∷ q.delegate_wallet ∷ q.mint ∷ subscriptions_program ∷ [])
        × (save_allowance now (allowance_record rt product parse_date rpc now w q) db.ledger
            ≡ ok db'.ledger)
  unfolding verify_allowance_receipt
  recorded-receipt now w db db' q h =
      elim (Bool-cases (
        mentions (w ∷ q.address ∷ q.delegate_wallet ∷ q.mint ∷ subscriptions_program ∷ [])
          (rpc q.signature))) [
            | inr e ↦ ground (arith, rw e at h)
            | inl e ↦ (
              mentions-IsMentioned rpc q.signature
                  (w ∷ q.address ∷ q.delegate_wallet ∷ q.mint ∷ subscriptions_program ∷ []) e,
              kept
                  (save_allowance now (allowance_record rt product parse_date rpc now w q)
                    db.ledger)
                  (rw e at h),
            )
          ]
    where
      kept :
          (m : Result SpendError Ledger)
          → keep_ledger db m (answers 201 "recorded") ≡ (some db', answers 201 "recorded")
          → m ≡ ok db'.ledger
      kept (ok l) g = ground (arith, g)
      kept (err x) g = ground (arith, g)

  -- What the checks have passed.
  record IsChecked (now : ℕ) (q : AllowanceRequest) : Type 0 where
    mint : q.mint ≡ product.asset_mint
    positive : 0 < q.max_atomic
    limited : q.max_atomic ≤ 100_000_000
    future : now < q.expires_at
    near : q.expires_at ≤ now + 90 * 86_400_000

  within_limits-IsChecked :
      (now : ℕ) (q q' : AllowanceRequest)
      → within_limits rt product parse_date rpc now q ≡ some q'
      → (q ≡ q') × IsChecked now q
  unfolding within_limits
  within_limits-IsChecked now q q' h = (
    ground (arith, h),
    record {
      mint = ground (arith, h, eq_iff q.mint product.asset_mint);
      positive = ground (arith, h);
      limited = ground (arith, h);
      future = ground (arith, h);
      near = ground (arith, h);
    },
  )

  check_allowance-IsChecked :
      (now : ℕ) (b : AllowanceBody) (q : AllowanceRequest)
      → check_allowance rt product parse_date rpc now b ≡ some q
      → (b.address ≡ some q.address) × IsChecked now q
  unfolding check_allowance
  check_allowance-IsChecked now b q h =
      let (address, a, h₁) = and_then-some (address_of b.address) h in
      let (delegate, d, h₂) = and_then-some (address_of b.delegate_wallet) h₁ in
      let (mint, m, h₃) = and_then-some b.mint h₂ in
      let (expires_at, x, h₄) = and_then-some (and_then b.expires_at parse_date) h₃ in
      let (signature, s, h₅) = and_then-some (transaction_of b.signature) h₄ in
      let (same, c) =
        within_limits-IsChecked now
          (record {
            address = address;
            delegate_wallet = delegate;
            mint = mint;
            max_atomic = parse_atomic b.max_atomic;
            expires_at = expires_at;
            signature = signature;
          })
          q h₅ in
      (address_of-some b.address a ∙ ap (λ z. some z.address) same, subst (IsChecked now) same c)

  -- The answer 201 "recorded" means that the request came with a session, that its token is that of the
  -- product, its amount positive and at most 100000000 and its expiry in the next 90 days, that a finalized
  -- transaction without an error has the owner, the delegation account, the delegate, the token and the
  -- program among its accounts, and that the allowance was given to the store.
  pub post_allowance-IsRecorded :
      (now : ℕ) (authorization : Option String) (b : AllowanceBody) (db db' : Database)
      → post_allowance rt product parse_date rpc now authorization b (some db)
        ≡ (some db', answers 201 "recorded")
      → IsRecorded now authorization b db db'
  unfolding post_allowance
  post_allowance-IsRecorded now authorization b db db' h =
      elim (signed_in-cases rt product parse_date rpc now authorization db) [
        | inl e ↦ ground (arith, rw e at h)
        | inr (w, o, e) ↦ elim (Option-cases (check_allowance rt product parse_date rpc now b)) [
          | inl c ↦ ground (arith, rw (e, c) at h)
          | inr (q, c) ↦
              let (asked, k) = check_allowance-IsChecked now b q c in
              let (receipt, saved) = recorded-receipt now w db db' q (rw (e, c) at h) in
              record {
                owner = w;
                request = q;
                session = o;
                asked = asked;
                mint = k.mint;
                positive = k.positive;
                limited = k.limited;
                future = k.future;
                near = k.near;
                receipt = receipt;
                saved = saved;
              }
        ]
      ]
