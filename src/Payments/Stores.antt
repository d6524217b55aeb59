-- ===== src/Payments/Stores.antt =====
-- The two payment stores behind the interface that the payment guards use.
use meterkit.Prelude.{
  sym, subst, not-true, String, ◌≡◌, refl, ap, Bool, true, false, ◌&&◌, ◌||◌, ◌==◌, Option, none,
  some, List, [], ◌∷◌, ◌++◌, map, mem, any, any-mem, filter, ok, arith, inl, inr, reject_if-ok,
  or_throw-ok, bind-ok, eq_iff, not, ltb, Bool-cases,
}
use meterkit.Platform.{solana_devnet}
use meterkit.Spend.{numeric_bound}
use meterkit.Payments.{
  Payment, constraint_violated, payment_replayed, confirmed, parse_payment, parse_payment-ok,
}
use meterkit.Payments.Interface.{PaymentStore, IsStore, IsAuthorizing}
use meterkit.Payments.Memory.{MemoryStore, reserve_authorization}
use meterkit.Payments.Memory
use meterkit.Payments.Table.{Row, conflicts}
use meterkit.Payments.Table

unfoldable pub memory_payment_store : PaymentStore MemoryStore
memory_payment_store = record {
  has = Memory.has;
  save = Memory.save;
  reserve_authorization = some reserve_authorization;
}

-- `PostgresStore`, as the gateway gives it to the guard: it has no `reserveAuthorization`.
unfoldable pub table_payment_store : (String → String → Option String) → PaymentStore (List Row)
table_payment_store uid_of = record {
  has = Table.has;
  save = Table.save uid_of;
  reserve_authorization = none;
}

abbrev memory_signatures : MemoryStore → List String
memory_signatures s = map (λ p. p.signature) s.records

mem-append_one : (k a : String) (xs : List String) → mem k (xs ++ (a ∷ [])) ≡ (k == a || mem k xs)
mem-append_one k a [] = refl
mem-append_one k a (x ∷ xs) = ground (arith, mem-append_one k a xs)

map-append_one :
    (p : Payment) (ps : List Payment)
    → map (λ q. q.signature) (ps ++ (p ∷ [])) ≡ map (λ q. q.signature) ps ++ (p.signature ∷ [])
map-append_one p [] = refl
map-append_one p (q ∷ ps) = ap (λ l. q.signature ∷ l) (map-append_one p ps)

memory_save-ok :
    (p : Payment) (s s' : MemoryStore)
    → Memory.save p s ≡ ok s'
    → (Memory.has p.signature s ≡ false) × (s'.records ≡ s.records ++ (p ∷ []))
unfolding Memory.save
memory_save-ok p s s' h =
    let (new, h₁) = reject_if-ok (Memory.has p.signature s) payment_replayed h in
    let (v, parsed, h₂) = bind-ok (parse_payment p) h₁ in
    let (same, _) = parse_payment-ok p parsed in (new, cc (same, h₂))

has-memory : (k : String) (s : MemoryStore) → Memory.has k s ≡ mem k (memory_signatures s)
unfolding Memory.has
has-memory k s = any-mem (λ p. p.signature) k s.records

pub memory_payment_store-IsStore : IsStore memory_payment_store
unfolding memory_payment_store
memory_payment_store-IsStore = record {
  signatures = memory_signatures;
  has_signature = has-memory;
  save_fresh = λ p s s' h. cc (has-memory p.signature s, (memory_save-ok p s s' h).0);
  save_adds = λ p s s' k h.
      rw ((memory_save-ok p s s' h).1, map-append_one p s.records)
        (mem-append_one k p.signature (map (λ q. q.signature) s.records));
}

-- The signatures that the table holds for the network.
abbrev on_devnet : Row → Bool
on_devnet r = r.payment.network == solana_devnet

abbrev table_signatures : List Row → List String
table_signatures rows = map (λ r. r.payment.signature) (filter on_devnet rows)

has-table : (k : String) (rows : List Row) → Table.has k rows ≡ mem k (table_signatures rows)
unfolding Table.has
has-table k [] = refl
has-table k (r ∷ rows) =
    ground (arith, has-table k rows, eq_iff r.payment.signature k, eq_iff k r.payment.signature)

any-conflicts-fresh :
    (p : Payment) (rows : List Row)
    → p.network ≡ solana_devnet
    → any (conflicts p) rows ≡ false
    → mem p.signature (table_signatures rows) ≡ false
unfolding conflicts
any-conflicts-fresh p [] n h = refl
any-conflicts-fresh p (r ∷ rows) n h = ground (
  arith,
  any-conflicts-fresh p rows n,
  n,
  h,
  eq_iff r.payment.signature p.signature,
  eq_iff p.signature r.payment.signature,
  eq_iff r.payment.network p.network,
  eq_iff r.payment.network solana_devnet,
)

module _ (uid_of : String → String → Option String) where
  table_save-ok :
      (p : Payment) (rows rows' : List Row)
      → Table.save uid_of p rows ≡ ok rows'
      → (mem p.signature (table_signatures rows) ≡ false)
        × (table_signatures rows' ≡ p.signature ∷ table_signatures rows)
  unfolding Table.save
  table_save-ok p rows rows' h =
      let (v, parsed, h₁) = bind-ok (parse_payment p) h in
      let (same, network) = parse_payment-ok p parsed in
      let (uid, _, h₂) = or_throw-ok (uid_of v.pay_to v.product_id) constraint_violated h₁ in
      let (_, h₃) =
        reject_if-ok (not (ltb 0 v.amount_atomic && ltb v.amount_atomic numeric_bound))
          constraint_violated h₂ in
      let (new, h₄) = reject_if-ok (any (conflicts v) rows) payment_replayed h₃ in
      let grown : rows'
          ≡ record { payment = record v { status = confirmed }; product_uid = uid } ∷ rows =
        cc h₄ in
      (
        any-conflicts-fresh p rows network (rw same at new),
        rw grown (ground (arith, same, network, eq_iff p.network solana_devnet)),
      )

  pub table_payment_store-IsStore : IsStore (table_payment_store uid_of)
  unfolding table_payment_store
  table_payment_store-IsStore = record {
    signatures = table_signatures;
    has_signature = has-table;
    save_fresh = λ p s s' h. (table_save-ok p s s' h).0;
    save_adds = λ p s s' k h. rw ((table_save-ok p s s' h).1) refl;
  }

memory_save-authorizations :
    (p : Payment) (s s' : MemoryStore)
    → Memory.save p s ≡ ok s'
    → s'.authorizations ≡ s.authorizations
unfolding Memory.save
memory_save-authorizations p s s' h =
    let (_, h₁) = reject_if-ok (Memory.has p.signature s) payment_replayed h in
    let (v, parsed, h₂) = bind-ok (parse_payment p) h₁ in
    let grown : record s { records = s.records ++ (v ∷ []) } ≡ s' = cc h₂ in
    ap (λ t. t.authorizations) (sym grown)

memory_reserve-IsReserved :
    (k j : String) (s : MemoryStore)
    → ((reserve_authorization k s).0.records ≡ s.records)
      × ((reserve_authorization k s).1 ≡ not (mem k s.authorizations))
      × (mem j (reserve_authorization k s).0.authorizations ≡ (j == k || mem j s.authorizations))
unfolding reserve_authorization
memory_reserve-IsReserved k j s = elim (Bool-cases (mem k s.authorizations)) [
  | inl e ↦ rw e (refl, refl, ground (arith, e, eq_iff j k))
  | inr e ↦ rw e (refl, refl, refl)
]

some_inj : {A : Type 0} {a b : A} → some a ≡ some b → a ≡ b
some_inj h = cc h

pub memory_payment_store-IsAuthorizing :
    IsAuthorizing memory_payment_store memory_payment_store-IsStore
unfolding memory_payment_store memory_payment_store-IsStore
memory_payment_store-IsAuthorizing = record {
  reserved = λ s. s.authorizations;
  reserve_signatures = λ f k s e.
      subst (λ g. memory_signatures (g k s).0 ≡ memory_signatures s) (some_inj e)
        (ap (map (λ p. p.signature)) (memory_reserve-IsReserved k k s).0);
  reserve_fresh = λ f k s e.
      subst (λ g. (g k s).1 ≡ true → mem k s.authorizations ≡ false) (some_inj e)
        (λ t. not-true (cc (t, (memory_reserve-IsReserved k k s).1)));
  reserve_adds = λ f k j s e.
      subst (λ g. mem j (g k s).0.authorizations ≡ (j == k || mem j s.authorizations)) (some_inj e)
        (memory_reserve-IsReserved k j s).2;
  save_reserved = memory_save-authorizations;
}

-- The table has no authorizations: the server keeps them itself.
pub table_payment_store-IsAuthorizing :
    (uid_of : String → String → Option String)
    → IsAuthorizing (table_payment_store uid_of) (table_payment_store-IsStore uid_of)
unfolding table_payment_store
table_payment_store-IsAuthorizing uid_of = record {
  reserved = λ rows. [];
  reserve_signatures = λ f k s e. cc e;
  reserve_fresh = λ f k s e t. refl;
  reserve_adds = λ f k j s e. cc;
  save_reserved = λ p s s' h. refl;
}
