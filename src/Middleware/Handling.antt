-- ===== src/Middleware/Handling.antt =====
-- What one request leads to.
use meterkit.Prelude.{
  ◌≤◌, String, ◌≡◌, ◌≢◌, ◌↔◌, refl, ap, true, false, not, ◌&&◌, some, leb, Result, ok, err,
  Result-cases, arith, inl, inr, reject_if-ok, or_throw-ok, eq_iff,
}
use meterkit.Platform.{Runtime, truthy, solana_devnet}
use meterkit.Products.{Product}
use meterkit.Payments.{Payment, PaymentError, parse_payment}
use meterkit.Payments.Interface.{PaymentStore}
use meterkit.Middleware.{
  Exchange, Settlement, requirements, is_foreign, or_malformed, to_record, Outcome, next,
  malformed_payment, payment_replayed, payment_required, payment_invalid, wrong_network, prepare,
  complete, handle,
}

module _ {S : Type 0} (rt : Runtime) (product : Product) (store : PaymentStore S) where
  -- The conditions on which a request reaches the handler.
  pub record IsAccepted (x : Exchange) (s s' : S) (t w : String) : Type 0 where
    pub header : String
    pub result : Settlement
    pub given : truthy x.header ≡ some header
    pub long : 16 ≤ rt.units header
    pub short : rt.units header ≤ 20_000
    pub settled : x.settle header (requirements product) ≡ some result
    pub success : result.success ≡ true
    pub transaction : truthy result.transaction ≡ some t
    pub payer : truthy result.payer ≡ some w
    pub network : is_foreign result.network ≡ false
    pub new : store.has t s ≡ false
    pub saved : store.save (to_record product x t w) s ≡ ok s'
    pub recorded : x.on_settled (to_record product x t w) ≡ true

  or_malformed-ok :
      (r : Result PaymentError Payment) {p : Payment} → or_malformed r ≡ ok p → r ≡ ok p
  or_malformed-ok (ok q) h = cc
  or_malformed-ok (err e) h = cc

  parse_same : (p : Payment) → p.network ≡ solana_devnet → parse_payment p ≡ ok p
  unfolding parse_payment
  parse_same p h = ground (arith, eq_iff p.network solana_devnet, h)

  -- What `prepare` has passed.
  record IsPrepared (x : Exchange) (s : S) (p : Payment) : Type 0 where
    header : String
    result : Settlement
    t : String
    w : String
    given : truthy x.header ≡ some header
    bounds : (16 ≤ rt.units header) × (rt.units header ≤ 20_000)
    settled : x.settle header (requirements product) ≡ some result
    success : result.success ≡ true
    transaction : truthy result.transaction ≡ some t
    payer : truthy result.payer ≡ some w
    network : is_foreign result.network ≡ false
    new : store.has t s ≡ false
    same : p ≡ to_record product x t w

  prepare-IsPrepared :
      (x : Exchange) (s : S) (p : Payment) → prepare rt product store x s ≡ ok p → IsPrepared x s p
  unfolding prepare
  prepare-IsPrepared x s p h =
      let (header, given, h₁) = or_throw-ok (truthy x.header) payment_required h in
      let (bounds, h₂) =
        reject_if-ok (not (leb 16 (rt.units header) && leb (rt.units header) 20_000))
          malformed_payment h₁ in
      let (result, settled, h₃) =
        or_throw-ok (x.settle header (requirements product)) malformed_payment h₂ in
      let (success, h₄) = reject_if-ok (not result.success) payment_invalid h₃ in
      let (t, transaction, h₅) = or_throw-ok (truthy result.transaction) payment_invalid h₄ in
      let (w, payer, h₆) = or_throw-ok (truthy result.payer) payment_invalid h₅ in
      let (network, h₇) = reject_if-ok (is_foreign result.network) wrong_network h₆ in
      let (new, h₈) = reject_if-ok (store.has t s) payment_replayed h₇ in
      let parsed = or_malformed-ok (parse_payment (to_record product x t w)) h₈ in
      record {
        header = header;
        result = result;
        t = t;
        w = w;
        given = given;
        bounds = ground (arith, bounds);
        settled = settled;
        success = ground (arith, success);
        transaction = transaction;
        payer = payer;
        network = network;
        new = new;
        same = cc (parsed, parse_same (to_record product x t w) refl);
      }

  IsAccepted-prepare :
      (x : Exchange) (s s' : S) (t w : String)
      → IsAccepted x s s' t w
      → prepare rt product store x s ≡ ok (to_record product x t w)
  unfolding prepare
  IsAccepted-prepare x s s' t w a = rw (a.given) (
      ground (
        arith,
        a.long,
        a.short,
        a.settled,
        a.success,
        a.transaction,
        a.payer,
        a.network,
        a.new,
        parse_same (to_record product x t w) refl,
      ))

  complete-next :
      (x : Exchange) (p : Payment) (s s' : S) (t w : String)
      → complete rt product store x p s ≡ (s', next t w)
      → (store.save p s ≡ ok s') × (x.on_settled p ≡ true) × (t ≡ p.signature) × (w ≡ p.payer)
  unfolding complete
  complete-next x p s s' t w h = elim (Result-cases (store.save p s)) [
    | inl (s₁, e) ↦ ground (arith, rw e at h, e)
    | inr (c, e) ↦ ground (arith, rw e at h)
  ]

  complete-accepted :
      (x : Exchange) (s s' : S) (t w : String)
      → IsAccepted x s s' t w
      → complete rt product store x (to_record product x t w) s ≡ (s', next t w)
  unfolding complete
  complete-accepted x s s' t w a = rw (a.saved, a.recorded) refl

  prepare-unserved :
      (x : Exchange) (s : S) (t w : String) (o : Outcome)
      → prepare rt product store x s ≡ err o
      → o ≢ next t w
  unfolding prepare
  prepare-unserved x s t w o h g = ground (arith, h, g)

-- A request gets to the handler, with its store and the transaction and payer of its answer, exactly when
-- its header has 16 to 20000 units, the facilitator settles it with a transaction and a payer and names
-- no other network, the store does not know the transaction and saves the record of it, and `onSettled`
-- does not throw.
pub handle-next_iff :
    {S : Type 0} (rt : Runtime) (product : Product) (store : PaymentStore S) (x : Exchange)
    (s s' : S) (t w : String)
    → (handle rt product store x s ≡ (s', next t w)) ↔ IsAccepted rt product store x s s' t w
unfolding handle
handle-next_iff rt product store x s s' t w = (there, back)
  where
    there : handle rt product store x s ≡ (s', next t w) → IsAccepted rt product store x s s' t w
    there h = elim (Result-cases (prepare rt product store x s)) [
      | inl (p, e) ↦
          let q = prepare-IsPrepared rt product store x s p e in
          let (saved, recorded, t_same, w_same) =
            complete-next rt product store x p s s' t w (rw e at h) in
          let t_eq : q.t ≡ t = cc (q.same, t_same) in
          let w_eq : q.w ≡ w = cc (q.same, w_same) in
          record {
            header = q.header;
            result = q.result;
            given = q.given;
            long = q.bounds.0;
            short = q.bounds.1;
            settled = q.settled;
            success = q.success;
            transaction = cc (q.transaction, t_eq);
            payer = cc (q.payer, w_eq);
            network = q.network;
            new = cc (q.new, t_eq);
            saved = cc (saved, q.same, t_eq, w_eq);
            recorded = cc (recorded, q.same, t_eq, w_eq);
          }
      | inr (o, e) ↦
          absurd (prepare-unserved rt product store x s t w o e (ap (λ z. z.1) (rw e at h)))
    ]

    back : IsAccepted rt product store x s s' t w → handle rt product store x s ≡ (s', next t w)
    back a =
        rw (IsAccepted-prepare rt product store x s s' t w a)
          (complete-accepted rt product store x s s' t w a)
