-- ===== src/Dynamic/Scoping.antt =====
-- The routes of `parseProductScope` in packages/sdk/src/index.ts, and the payments on them.
use Prim.Native.Char.{code}
use meterkit.Prelude.{
  String, ◌≡◌, ◌↔◌, ◌∙◌, refl, ap, sym, true, ◌&&◌, ◌==◌, Option, none, some, List, [], ◌∷◌, all,
  All, Bool-cases, inl, inr, arith, eq_iff, and-true,
}
use meterkit.Platform.{is_solana_address, is_base58, codes, all_some}
use meterkit.Policies.{is_slug_rest}
use meterkit.Products.{is_product_slug}
use meterkit.Dynamic.{split_slash, Scope, scoped, parse_product_scope}
use meterkit.Dynamic.Parts.{
  is_part, join_parts, slash-split, part-split, last-split, join-split, not_slash,
}

base58-part : (s : String) → all is_base58 (codes s) ≡ true → is_part s ≡ true
base58-part String.[] h = refl
base58-part (String.◌∷◌ c s) h = ground (arith, h, not_slash (code c), base58-part s)

address-part : (s : String) → is_solana_address s ≡ true → is_part s ≡ true
unfolding is_solana_address
address-part s h = base58-part s (and-true h).1

slug_rest-part : (s : String) → is_slug_rest (codes s) ≡ true → is_part s ≡ true
slug_rest-part String.[] h = refl
slug_rest-part (String.◌∷◌ c String.[]) h = ground (arith, h)
slug_rest-part (String.◌∷◌ c (String.◌∷◌ d s)) h =
    ground (arith, h, slug_rest-part (String.◌∷◌ d s))

slug-part : (s : String) → is_product_slug s ≡ true → is_part s ≡ true
unfolding is_product_slug
slug-part String.[] h = refl
slug-part (String.◌∷◌ c s) h = ground (arith, h, slug_rest-part s)

-- The parts are those that were joined, where none has a slash.
split-join :
    (s : String) (ss : List String)
    → All (λ t. is_part t ≡ true) (s ∷ ss)
    → split_slash (join_parts (s ∷ ss)) ≡ s ∷ ss
split-join s [] p = last-split s p.0
split-join s (t ∷ ts) p =
    part-split s _ (t ∷ ts) p.0
      (slash-split (join_parts (t ∷ ts)) ∙ ap (λ l. "" ∷ l) (split-join t ts p.1))

abbrev with_owner : Option String → List String → List String
with_owner none ss = ss
with_owner (some owner) ss = owner ∷ ss

abbrev parts_of : Scope → List String
parts_of sc = "" ∷ "v1" ∷ "products" ∷ with_owner sc.owner (sc.slug ∷ "proxy" ∷ [])

-- /v1/products/{owner}/{slug}/proxy, or /v1/products/{slug}/proxy.
abbrev pub route : Scope → String
route sc = join_parts (parts_of sc)

scoped-parts :
    (parts : List String) (sc : Scope)
    → scoped parts ≡ some sc
    → (all_some is_solana_address sc.owner ≡ true)
      × (is_product_slug sc.slug ≡ true)
      × (parts ≡ parts_of sc)
scoped-parts (a ∷ b ∷ c ∷ d ∷ e ∷ []) sc h =
    elim (Bool-cases
      (a == "" && b == "v1" && c == "products" && is_product_slug d && e == "proxy")) [
        | inl t ↦
            let same : record { owner = none; slug = d } ≡ sc = cc (rw t at h) in
            rw (← same)
              (ground (arith, t, eq_iff a "", eq_iff b "v1", eq_iff c "products", eq_iff e "proxy"))
        | inr t ↦ cc (rw t at h)
      ]
scoped-parts (a ∷ b ∷ c ∷ d ∷ e ∷ f ∷ []) sc h =
    elim (Bool-cases (
      a == ""
      && b == "v1"
      && c == "products"
      && is_solana_address d
      && is_product_slug e
      && f == "proxy")) [
        | inl t ↦
            let same : record { owner = some d; slug = e } ≡ sc = cc (rw t at h) in
            rw (← same)
              (ground (arith, t, eq_iff a "", eq_iff b "v1", eq_iff c "products", eq_iff f "proxy"))
        | inr t ↦ cc (rw t at h)
      ]
scoped-parts [] sc h = cc h
scoped-parts (a ∷ []) sc h = cc h
scoped-parts (a ∷ b ∷ []) sc h = cc h
scoped-parts (a ∷ b ∷ c ∷ []) sc h = cc h
scoped-parts (a ∷ b ∷ c ∷ d ∷ []) sc h = cc h
scoped-parts (a ∷ b ∷ c ∷ d ∷ e ∷ f ∷ g ∷ l) sc h = cc h

parts-scoped :
    (owner : Option String) (slug : String)
    → all_some is_solana_address owner ≡ true
    → is_product_slug slug ≡ true
    → scoped (parts_of (record { owner = owner; slug = slug }))
      ≡ some (record { owner = owner; slug = slug })
parts-scoped none slug o s = rw s refl
parts-scoped (some owner) slug o s = rw (s, o) refl

parts-All :
    (owner : Option String) (slug : String)
    → all_some is_solana_address owner ≡ true
    → is_product_slug slug ≡ true
    → All (λ t. is_part t ≡ true) (parts_of (record { owner = owner; slug = slug }))
parts-All none slug o s = (refl, (refl, (refl, (slug-part slug s, (refl, tt)))))
parts-All (some owner) slug o s =
    (refl, (refl, (refl, (address-part owner o, (slug-part slug s, (refl, tt))))))

-- A path has a scope exactly when it is the route of that scope, with a slug that the schema accepts and
-- with an owner that is a Solana address, or none.
pub parse_product_scope_iff :
    (path : String) (sc : Scope)
    → (parse_product_scope path ≡ some sc) ↔ (
        (all_some is_solana_address sc.owner ≡ true)
        × (is_product_slug sc.slug ≡ true)
        × (path ≡ route sc))
unfolding parse_product_scope
parse_product_scope_iff path sc = (
  (λ h.
      let (o, s, parts) = scoped-parts (split_slash path) sc h in
      (o, s, sym (join-split path) ∙ ap join_parts parts)),
  (λ h.
      let split =
        split-join "" ("v1" ∷ "products" ∷ with_owner sc.owner (sc.slug ∷ "proxy" ∷ []))
          (parts-All sc.owner sc.slug h.0 h.1) in
      ap (λ p. scoped (split_slash p)) h.2
      ∙ ap scoped split
      ∙ parts-scoped sc.owner sc.slug h.0 h.1),
)
