-- ===== src/Prelude/Rows.antt =====
-- Updates of tables: what an UPDATE under constraints leaves, with the keys of its rows.
use Prim.Native.Nat.{ℕ, ◌+◌, ◌≤◌}
use Prim.Native.String.{String}
use mathlib.Core.Path.{◌≡◌, refl}
use mathlib.Core.Bool.{Bool, true, false}
use mathlib.Core.Option.{Option, some}
use mathlib.Core.Logic.{inl, inr}
use mathlib.Core.List.{List, [], ◌∷◌, map}
use native.Mathlib.Omega.{arith}
use text.Mathlib.Text.{◌==◌}
use text.Mathlib.TextEquality.{eq_iff}
use meterkit.Prelude.Tests.{if◌then◌else◌, Bool-cases, Option-cases}
use meterkit.Prelude.Lists.{
  modify_where, update_where, find, sum_by, mem, cons_some, All, any, Distinct,
}

module _ {ℓ} {A : Type ℓ} where
  pub map-modify_where :
      (key : A → String) (p : A → Bool) (f : A → A) (xs : List A)
      → ((x : A) → key (f x) ≡ key x)
      → map key (modify_where p f xs) ≡ map key xs
  map-modify_where key p f [] same = refl
  map-modify_where key p f (x ∷ xs) same = ground (arith, same x, map-modify_where key p f xs same)

  pub All-modify_where {κ μ} :
      {P : A → Type κ} (Q : A → Type μ) (p : A → Bool) (f : A → A) (xs : List A)
      → ((x : A) → P x → Q (if p x then f x else x))
      → All P xs
      → All Q (modify_where p f xs)
  All-modify_where Q p f [] step h = tt
  All-modify_where Q p f (x ∷ xs) step h = (step x h.0, All-modify_where Q p f xs step h.1)

  pub find-mem :
      (key : A → String) (k : String) (xs : List A) {x : A}
      → find (λ y. key y == k) xs ≡ some x
      → (key x ≡ k) × (mem k (map key xs) ≡ true)
  find-mem key k [] h = cc
  find-mem key k (y ∷ ys) {x} h = elim (Bool-cases (key y == k)) [
    | inl e ↦
        let hit : some y ≡ some x = rw e at h in ground (arith, eq_iff (key y) k, eq_iff k (key y))
    | inr e ↦
        let (same, there) = find-mem key k ys {x = x} (rw e at h) in
        (same, ground (arith, eq_iff k (key y)))
  ]

  pub any-mem :
      (key : A → String) (k : String) (xs : List A) → any (λ y. key y == k) xs ≡ mem k (map key xs)
  any-mem key k [] = refl
  any-mem key k (y ∷ ys) = ground (arith, eq_iff (key y) k, eq_iff k (key y), any-mem key k ys)

  -- An UPDATE by a key that no row has changes nothing.
  pub modify_where-absent :
      (key : A → String) (k : String) (f : A → A) (xs : List A)
      → mem k (map key xs) ≡ false
      → modify_where (λ y. key y == k) f xs ≡ xs
  modify_where-absent key k f [] h = refl
  modify_where-absent key k f (y ∷ ys) h =
      ground (arith, eq_iff (key y) k, eq_iff k (key y), modify_where-absent key k f ys)

  -- An UPDATE by a distinct key changes a sum by the change of the one row.
  pub sum_by-modify_where :
      (key : A → String) (k : String) (f : A → A) (g : A → ℕ) (xs : List A) {x : A}
      → Distinct (map key xs)
      → find (λ y. key y == k) xs ≡ some x
      → sum_by g (modify_where (λ y. key y == k) f xs) + g x ≡ sum_by g xs + g (f x)
  sum_by-modify_where key k f g [] d h = cc
  sum_by-modify_where key k f g (y ∷ ys) {x} d h = elim (Bool-cases (key y == k)) [
    | inl e ↦
        let hit : some y ≡ some x = rw e at h in
        let same : y ≡ x = cc in
        rw (e, modify_where-absent key k f ys (rw ((eq_iff (key y) k).0 e) at (d.0)), same)
          (omega arith)
    | inr e ↦ rw e (omega (arith, sum_by-modify_where key k f g ys d.1 (rw e at h)))
  ]

  pub le-sum_by :
      (p : A → Bool) (g : A → ℕ) (xs : List A) {x : A} → find p xs ≡ some x → g x ≤ sum_by g xs
  le-sum_by p g [] h = cc
  le-sum_by p g (y ∷ ys) {x} h = elim (Bool-cases (p y)) [
    | inl e ↦
        let hit : some y ≡ some x = rw e at h in let same : y ≡ x = cc in rw same (omega arith)
    | inr e ↦ omega (arith, le-sum_by p g ys (rw e at h))
  ]

module _ {ℓ} {A : Type ℓ} where
  -- With distinct keys, a search finds the only row of its key.
  pub find-only :
      (key : A → String) (k : String) (xs : List A) {x : A}
      → Distinct (map key xs)
      → find (λ y. key y == k) xs ≡ some x
      → All (λ y. (key y == k) ≡ true → y ≡ x) xs
  find-only key k [] d h = tt
  find-only key k (y ∷ ys) {x} d h = elim (Bool-cases (key y == k)) [
    | inl e ↦
        let hit : some y ≡ some x = rw e at h in
        ((λ _. cc hit), none_else ys (rw ((eq_iff (key y) k).0 e) at (d.0)))
    | inr e ↦ ((λ t. cc), find-only key k ys d.1 (rw e at h))
  ]
    where
      none_else :
          (zs : List A) → mem k (map key zs) ≡ false → All (λ z. (key z == k) ≡ true → z ≡ x) zs
      none_else [] m = tt
      none_else (z ∷ zs) m =
          ((λ t. ground (arith, eq_iff (key z) k, eq_iff k (key z))), none_else zs (ground arith))

module _ {ℓ κ μ} {A : Type ℓ} (P : A → Type κ) (Q : A → Type μ) where
  pub All-both : (xs : List A) → All P xs → All Q xs → All (λ x. P x × Q x) xs
  All-both [] h k = tt
  All-both (x ∷ xs) h k = ((h.0, k.0), All-both xs h.1 k.1)

-- What an UPDATE under constraints leaves, if it breaks none.
module _ {ℓ κ μ} {A : Type ℓ} (P : A → Type κ) (Q : A → Type μ) (key : A → String) where
  pub update_where-All :
      (p : A → Bool) (f : A → Option A) (xs ys : List A)
      → ((x : A) → P x → Q x)
      → ((x y : A) → P x → f x ≡ some y → Q y × (key y ≡ key x))
      → All P xs
      → update_where p f xs ≡ some ys
      → All Q ys × (map key ys ≡ map key xs)
  unfolding update_where
  update_where-All p f [] ys keep step h e = let same : ys ≡ [] = cc in rw same (tt, refl)
  update_where-All p f (x ∷ xs) ys keep step h e = elim (Bool-cases (p x)) [
    | inl t ↦ elim (Option-cases (f x)) [
      | inl g ↦ cc (rw (t, g) at e)
      | inr (y, g) ↦
          joined (λ zs n. update_where-All p f xs zs keep step h.1 n) y (step x y h.0 g)
            (rw (t, g) at e)
    ]
    | inr t ↦
        joined (λ zs n. update_where-All p f xs zs keep step h.1 n) x (keep x h.0, refl) (rw t at e)
  ]
    where
      joined :
          ((zs : List A) → update_where p f xs ≡ some zs → All Q zs × (map key zs ≡ map key xs))
          → (y : A) → Q y × (key y ≡ key x)
          → cons_some y (update_where p f xs) ≡ some ys
          → All Q ys × (map key ys ≡ map key (x ∷ xs))
      joined ih y q g = elim (Option-cases (update_where p f xs)) [
        | inl n ↦ cc (rw n at g)
        | inr (zs, n) ↦
            let same : ys ≡ y ∷ zs = cc (rw n at g) in
            let (rest, keys) = ih zs n in rw same ((q.0, rest), cc (q.1, keys))
      ]
