-- ===== src/Prelude/Keys.antt =====
-- Rows with distinct keys under the clauses of a SELECT.
use Prim.Native.Nat.{ℕ, zero, suc}
use Prim.Native.String.{String}
use mathlib.Core.Path.{◌≡◌, refl}
use mathlib.Core.Bool.{Bool, true, false, ◌||◌}
use mathlib.Core.Option.{some}
use mathlib.Core.Logic.{inl, inr}
use mathlib.Core.List.{List, [], ◌∷◌, map}
use native.Mathlib.Omega.{arith}
use text.Mathlib.Text.{◌==◌}
use text.Mathlib.TextEquality.{eq_iff}
use text.Mathlib.TextPositions.{eq_refl}
use meterkit.Prelude.Tests.{Bool-cases, leb}
use meterkit.Prelude.Lists.{
  All, All-impl, All-find, filter, take, insert_by, sort_by, mem, Distinct, find, modify_where,
}
use meterkit.Prelude.Rows.{find-mem}

module _ {ℓ} {A : Type ℓ} where
  pub All-filter_self : (p : A → Bool) (xs : List A) → All (λ x. p x ≡ true) (filter p xs)
  All-filter_self p [] = tt
  All-filter_self p (x ∷ xs) = elim (Bool-cases (p x)) [
    | inl e ↦ rw e (e, All-filter_self p xs)
    | inr e ↦ rw e (All-filter_self p xs)
  ]

module _ {ℓ} {A : Type ℓ} (key : A → String) where
  pub mem-filter-false :
      (k : String) (p : A → Bool) (xs : List A)
      → mem k (map key xs) ≡ false
      → mem k (map key (filter p xs)) ≡ false
  mem-filter-false k p [] h = refl
  mem-filter-false k p (x ∷ xs) h = ground (arith, mem-filter-false k p xs)

  mem-take-false :
      (k : String) (n : ℕ) (xs : List A)
      → mem k (map key xs) ≡ false
      → mem k (map key (take n xs)) ≡ false
  mem-take-false k zero xs h = refl
  mem-take-false k (suc n) [] h = refl
  mem-take-false k (suc n) (x ∷ xs) h = ground (arith, mem-take-false k n xs)

  mem-insert_by :
      (k : String) (f : A → ℕ) (x : A) (xs : List A)
      → mem k (map key (insert_by f x xs)) ≡ (k == key x || mem k (map key xs))
  mem-insert_by k f x [] = refl
  mem-insert_by k f x (y ∷ ys) = ground (arith, mem-insert_by k f x ys)

  mem-sort_by :
      (k : String) (f : A → ℕ) (xs : List A) → mem k (map key (sort_by f xs)) ≡ mem k (map key xs)
  mem-sort_by k f [] = refl
  mem-sort_by k f (x ∷ xs) = ground (arith, mem-insert_by k f x (sort_by f xs), mem-sort_by k f xs)

  pub Distinct-filter :
      (p : A → Bool) (xs : List A) → Distinct (map key xs) → Distinct (map key (filter p xs))
  Distinct-filter p [] d = tt
  Distinct-filter p (x ∷ xs) d = elim (Bool-cases (p x)) [
    | inl e ↦ rw e (mem-filter-false (key x) p xs d.0, Distinct-filter p xs d.1)
    | inr e ↦ rw e (Distinct-filter p xs d.1)
  ]

  pub Distinct-take : (n : ℕ) (xs : List A) → Distinct (map key xs) → Distinct (map key (take n xs))
  Distinct-take zero xs d = tt
  Distinct-take (suc n) [] d = tt
  Distinct-take (suc n) (x ∷ xs) d = (mem-take-false (key x) n xs d.0, Distinct-take n xs d.1)

  Distinct-insert_by :
      (f : A → ℕ) (x : A) (xs : List A)
      → mem (key x) (map key xs) ≡ false
      → Distinct (map key xs)
      → Distinct (map key (insert_by f x xs))
  Distinct-insert_by f x [] h d = (refl, tt)
  Distinct-insert_by f x (y ∷ ys) h d = elim (Bool-cases (leb (f x) (f y))) [
    | inl e ↦ rw e (h, d)
    | inr e ↦ rw e (
      ground (
        arith,
        mem-insert_by (key y) f x ys,
        eq_iff (key y) (key x),
        eq_iff (key x) (key y),
        d.0,
      ),
      Distinct-insert_by f x ys (ground arith) d.1,
    )
  ]

  pub Distinct-sort_by :
      (f : A → ℕ) (xs : List A) → Distinct (map key xs) → Distinct (map key (sort_by f xs))
  Distinct-sort_by f [] d = tt
  Distinct-sort_by f (x ∷ xs) d =
      Distinct-insert_by f x (sort_by f xs) (rw (mem-sort_by (key x) f xs) (d.0))
        (Distinct-sort_by f xs d.1)

  -- Each row is found by its key.
  pub All-find_self :
      (xs : List A) → Distinct (map key xs) → All (λ x. find (λ y. key y == key x) xs ≡ some x) xs
  All-find_self [] d = tt
  All-find_self (x ∷ xs) d =
      (rw (eq_refl (key x)) refl, All-impl xs (λ y h. behind y h) (All-find_self xs d.1))
    where
      behind :
          (y : A)
          → find (λ z. key z == key y) xs ≡ some y
          → find (λ z. key z == key y) (x ∷ xs) ≡ some y
      behind y h = ground (arith, h, eq_iff (key x) (key y), d.0, (find-mem key (key y) xs h).1)

  -- The rows that two searches find are one if they have one key.
  pub same_row :
      (p q : A → Bool) (xs : List A) {x y : A}
      → Distinct (map key xs)
      → find p xs ≡ some x
      → find q xs ≡ some y
      → key x ≡ key y
      → x ≡ y
  same_row p q xs {x} {y} d e f h =
      let each = All-find_self xs d in
      let first = All-find (λ z. find (λ v. key v == key z) xs ≡ some z) p xs each e in
      let second = All-find (λ z. find (λ v. key v == key z) xs ≡ some z) q xs each f in
      cc (rw h at first)

  -- An UPDATE by one key leaves the rows of the others.
  pub find-modify_where_ne :
      (j k : String) (f : A → A) (xs : List A)
      → (j == k) ≡ false
      → ((x : A) → key (f x) ≡ key x)
      → find (λ y. key y == j) (modify_where (λ y. key y == k) f xs) ≡ find (λ y. key y == j) xs
  find-modify_where_ne j k f [] ne same = refl
  find-modify_where_ne j k f (x ∷ xs) ne same = ground (
    arith,
    same x,
    eq_iff (key x) k,
    eq_iff (key x) j,
    eq_iff (key (f x)) j,
    eq_iff j k,
    find-modify_where_ne j k f xs ne same,
  )
