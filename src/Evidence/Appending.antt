-- ===== src/Evidence/Appending.antt =====
-- What appending to the ledger keeps.
use meterkit.Prelude.{
  String, ◌≡◌, refl, sym, ◌∙◌, subst, Bool, false, not, none, some, List, [], ◌∷◌, ◌++◌, map, ◌==◌,
  eq_iff, any, find, mem, Distinct, All, All-append, All-impl, All-both, Result, ok, err,
  reject_if-ok, bind-ok, Result-cases, Option-cases, Bool-cases, inl, inr, arith, All-find,
}
use meterkit.Platform.{Runtime}
use meterkit.Evidence.{
  Evidence, EvidenceError, invalid, evidence_id_already_recorded, is_evidence,
  assert_classification_immutable, append_self_service_evidence,
}

-- The records of one engagement have one classification.
abbrev pub IsOneClass : List Evidence → Type 0
IsOneClass ledger =
    All
      (λ e.
        All (λ f. e.engagement_id ≡ f.engagement_id → e.classification ≡ f.classification) ledger)
      ledger

find-none-All :
    (id : String) (ledger : List Evidence)
    → find (λ e. e.engagement_id == id) ledger ≡ none
    → All (λ e. (e.engagement_id == id) ≡ false) ledger
find-none-All id [] h = tt
find-none-All id (e ∷ ledger) h = elim (Bool-cases (e.engagement_id == id)) [
  | inl t ↦ cc (rw t at h)
  | inr t ↦ (t, find-none-All id ledger (rw t at h))
]

find-engagement :
    (id : String) (ledger : List Evidence) {p : Evidence}
    → find (λ e. e.engagement_id == id) ledger ≡ some p
    → p.engagement_id ≡ id
find-engagement id [] h = cc
find-engagement id (e ∷ ledger) {p} h = elim (Bool-cases (e.engagement_id == id)) [
  | inl t ↦
      let hit : some e ≡ some p = rw t at h in ground (arith, hit, t, eq_iff e.engagement_id id)
  | inr t ↦ find-engagement id ledger {p = p} (rw t at h)
]

assert-ok :
    (p r : Evidence) {u : Unit {0}}
    → assert_classification_immutable (some p) r ≡ ok u
    → p.engagement_id ≡ r.engagement_id
    → p.classification ≡ r.classification
unfolding assert_classification_immutable
assert-ok p r h same = ground (
  arith,
  h,
  same,
  eq_iff p.engagement_id r.engagement_id,
  eq_iff p.classification r.classification,
)

-- All records of the engagement of `r` have the class of `r`.
append-class :
    (r : Evidence) (ledger : List Evidence) {u : Unit {0}}
    → IsOneClass ledger
    → assert_classification_immutable (find (λ e. e.engagement_id == r.engagement_id) ledger) r
      ≡ ok u
    → All (λ e. e.engagement_id ≡ r.engagement_id → e.classification ≡ r.classification) ledger
append-class r ledger one h =
    elim (Option-cases (find (λ e. e.engagement_id == r.engagement_id) ledger)) [
      | inl n ↦
          All-impl ledger (λ e t same. cc (t, (eq_iff e.engagement_id r.engagement_id).1 same))
            (find-none-All r.engagement_id ledger n)
      | inr (p, n) ↦
          let own = find-engagement r.engagement_id ledger {p = p} n in
          let class = assert-ok p r (rw n at h) own in
          All-impl ledger (λ e k same. sym (k (own ∙ sym same)) ∙ class)
            (All-find _ (λ e. e.engagement_id == r.engagement_id) ledger {x = p} one n)
    ]

append-IsOneClass :
    (r : Evidence) (ledger : List Evidence)
    → IsOneClass ledger
    → All (λ e. e.engagement_id ≡ r.engagement_id → e.classification ≡ r.classification) ledger
    → IsOneClass (ledger ++ (r ∷ []))
append-IsOneClass r ledger one c =
    All-append _ ledger (r ∷ [])
      (All-impl ledger (λ e k. All-append _ ledger (r ∷ []) k.0 (k.1, tt))
        (All-both _ _ ledger one c))
      (
        All-append _ ledger (r ∷ []) (All-impl ledger (λ e k same. sym (k (sym same))) c)
            ((λ _. refl), tt),
        tt,
      )

abbrev pub id_of : Evidence → String
id_of e = e.evidence_id

mem-append :
    (k : String) (ledger : List Evidence) (r : Evidence)
    → mem k (map id_of ledger) ≡ false
    → (r.evidence_id == k) ≡ false
    → mem k (map id_of (ledger ++ (r ∷ []))) ≡ false
mem-append k [] r m n = ground (arith, eq_iff k r.evidence_id, eq_iff r.evidence_id k)
mem-append k (e ∷ ledger) r m n = ground (arith, mem-append k ledger r)

Distinct-append :
    (ledger : List Evidence) (r : Evidence)
    → Distinct (map id_of ledger)
    → any (λ e. e.evidence_id == r.evidence_id) ledger ≡ false
    → Distinct (map id_of (ledger ++ (r ∷ [])))
Distinct-append [] r d n = (refl, tt)
Distinct-append (e ∷ ledger) r d n = (
  mem-append e.evidence_id ledger r d.0
      (ground (arith, n, eq_iff e.evidence_id r.evidence_id, eq_iff r.evidence_id e.evidence_id)),
  Distinct-append ledger r d.1 (ground (arith, n)),
)

-- What every ledger that was appended to satisfies.
pub record IsLedger (ledger : List Evidence) : Type 0 where
  pub one_class : IsOneClass ledger
  pub ids_distinct : Distinct (map id_of ledger)

module _ (rt : Runtime) (is_uuid : String → Bool) where
  append-IsLedger :
      (r : Evidence) (ledger ledger' : List Evidence)
      → IsLedger ledger
      → append_self_service_evidence rt is_uuid r ledger ≡ ok ledger'
      → IsLedger ledger'
  unfolding append_self_service_evidence
  append-IsLedger r ledger ledger' v h =
      let (_, h₁) = reject_if-ok (not (is_evidence rt is_uuid r)) invalid h in
      let (fresh, h₂) =
        reject_if-ok (any (λ e. e.evidence_id == r.evidence_id) ledger) evidence_id_already_recorded
          h₁ in
      let (_, immutable, h₃) =
        bind-ok
          (assert_classification_immutable (find (λ e. e.engagement_id == r.engagement_id) ledger)
            r)
          h₂ in
      let same : ledger ++ (r ∷ []) ≡ ledger' = cc in
      subst IsLedger same (record {
        one_class =
            append-IsOneClass r ledger v.one_class (append-class r ledger v.one_class immutable);
        ids_distinct = Distinct-append ledger r v.ids_distinct fresh;
      })

  abbrev keep : List Evidence → Result EvidenceError (List Evidence) → List Evidence
  keep ledger (ok ledger') = ledger'
  keep ledger (err e) = ledger

  -- Records are appended one after another; a refused one changes nothing.
  unfoldable pub append_all : List Evidence → List Evidence → List Evidence
  append_all ledger [] = ledger
  append_all ledger (r ∷ rs) =
      append_all (keep ledger (append_self_service_evidence rt is_uuid r ledger)) rs

  append_all-keeps : (rs ledger : List Evidence) → IsLedger ledger → IsLedger (append_all ledger rs)
  unfolding append_all
  append_all-keeps [] ledger v = v
  append_all-keeps (r ∷ rs) ledger v =
      elim (Result-cases (append_self_service_evidence rt is_uuid r ledger)) [
        | inl (ledger', e) ↦
            rw e (append_all-keeps rs ledger' (append-IsLedger r ledger ledger' v e))
        | inr (x, e) ↦ rw e (append_all-keeps rs ledger v)
      ]

  -- Whatever records are appended to an empty ledger, no two of those that it takes have the same
  -- id, and all of one engagement have the same classification.
  pub append_all-IsLedger : (rs : List Evidence) → IsLedger (append_all [] rs)
  append_all-IsLedger rs = append_all-keeps rs [] (record { one_class = tt; ids_distinct = tt })
