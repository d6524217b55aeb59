-- ===== src/Prelude/Lists.antt =====
-- Lists as database tables use them: predicates on every row, distinct keys, sums and updates.
use Prim.Native.Nat.{ℕ, zero, suc, ◌+◌}
use Prim.Native.String.{String}
use mathlib.Core.Path.{◌≡◌, refl}
use mathlib.Core.Bool.{Bool, true, false, ◌&&◌, ◌||◌}
use mathlib.Core.Option.{Option, none, some}
use mathlib.Core.Logic.{inl, inr}
use mathlib.Core.List.{List, [], ◌∷◌, ◌++◌, map}
use native.Mathlib.Omega.{arith}
use text.Mathlib.Text.{◌==◌}
use meterkit.Prelude.Tests.{if◌then◌else◌, Bool-cases, leb}

module _ {ℓ} {A : Type ℓ} where
  abbrev pub length : List A → ℕ
  length [] = 0
  length (x ∷ xs) = suc (length xs)

  abbrev pub take : ℕ → List A → List A
  take zero xs = []
  take (suc n) [] = []
  take (suc n) (x ∷ xs) = x ∷ take n xs

  -- `Array.prototype.filter`, and the WHERE of a SELECT.
  abbrev pub filter : (A → Bool) → List A → List A
  filter p [] = []
  filter p (x ∷ xs) = let rest = filter p xs in if p x then x ∷ rest else rest

  abbrev pub any : (A → Bool) → List A → Bool
  any p [] = false
  any p (x ∷ xs) = p x || any p xs

  abbrev pub all : (A → Bool) → List A → Bool
  all p [] = true
  all p (x ∷ xs) = p x && all p xs

  abbrev pub find : (A → Bool) → List A → Option A
  find p [] = none
  find p (x ∷ xs) = if p x then some x else find p xs

  abbrev pub sum_by : (A → ℕ) → List A → ℕ
  sum_by f [] = 0
  sum_by f (x ∷ xs) = f x + sum_by f xs

  abbrev pub All {κ} : (A → Type κ) → List A → Type κ
  All P [] = Unit
  All P (x ∷ xs) = P x × All P xs

  -- ORDER BY a number, ascending; equal rows keep their order.
  abbrev pub insert_by : (A → ℕ) → A → List A → List A
  insert_by f x [] = x ∷ []
  insert_by f x (y ∷ ys) = if leb (f x) (f y) then x ∷ y ∷ ys else y ∷ insert_by f x ys

  abbrev pub sort_by : (A → ℕ) → List A → List A
  sort_by f [] = []
  sort_by f (x ∷ xs) = insert_by f x (sort_by f xs)

module _ {ℓ κ} {A : Type ℓ} (P : A → Type κ) where
  pub All-filter : (p : A → Bool) (xs : List A) → All P xs → All P (filter p xs)
  All-filter p [] h = tt
  All-filter p (x ∷ xs) h = elim (Bool-cases (p x)) [
    | inl e ↦ rw e (h.0, All-filter p xs h.1)
    | inr e ↦ rw e (All-filter p xs h.1)
  ]

  pub All-take : (n : ℕ) (xs : List A) → All P xs → All P (take n xs)
  All-take zero xs h = tt
  All-take (suc n) [] h = tt
  All-take (suc n) (x ∷ xs) h = (h.0, All-take n xs h.1)

  pub All-insert_by : (f : A → ℕ) (x : A) (xs : List A) → P x → All P xs → All P (insert_by f x xs)
  All-insert_by f x [] p h = (p, tt)
  All-insert_by f x (y ∷ ys) p h = elim (Bool-cases (leb (f x) (f y))) [
    | inl e ↦ rw e (p, h)
    | inr e ↦ rw e (h.0, All-insert_by f x ys p h.1)
  ]

  pub All-sort_by : (f : A → ℕ) (xs : List A) → All P xs → All P (sort_by f xs)
  All-sort_by f [] h = tt
  All-sort_by f (x ∷ xs) h = All-insert_by f x (sort_by f xs) h.0 (All-sort_by f xs h.1)

  pub All-append : (xs ys : List A) → All P xs → All P ys → All P (xs ++ ys)
  All-append [] ys h k = k
  All-append (x ∷ xs) ys h k = (h.0, All-append xs ys h.1 k)

  pub All-find : (p : A → Bool) (xs : List A) {x : A} → All P xs → find p xs ≡ some x → P x
  All-find p [] h e = cc
  All-find p (y ∷ ys) {x} h e = elim (Bool-cases (p y)) [
    | inl t ↦ let same : some y ≡ some x = rw t at e in rw (← (some_inj same)) h.0
    | inr t ↦ All-find p ys h.1 (rw t at e)
  ]
    where
      some_inj : {a b : A} → some a ≡ some b → a ≡ b
      some_inj q = cc

module _ {ℓ κ μ} {A : Type ℓ} {P : A → Type κ} {Q : A → Type μ} where
  pub All-impl : (xs : List A) → ((x : A) → P x → Q x) → All P xs → All Q xs
  All-impl [] f h = tt
  All-impl (x ∷ xs) f h = (f x h.0, All-impl xs f h.1)

module _ {ℓ κ μ} {A : Type ℓ} {B : Type κ} (P : B → Type μ) where
  pub All-map : (g : A → B) (xs : List A) → All (λ x. P (g x)) xs → All P (map g xs)
  All-map g [] h = tt
  All-map g (x ∷ xs) h = (h.0, All-map g xs h.1)

module _ {ℓ} {A : Type ℓ} where
  -- UPDATE … SET … WHERE: the rows that the test selects are rewritten.
  abbrev pub modify_where : (A → Bool) → (A → A) → List A → List A
  modify_where p f = map (λ x. if p x then f x else x)

  abbrev pub cons_some : A → Option (List A) → Option (List A)
  cons_some x none = none
  cons_some x (some xs) = some (x ∷ xs)

  abbrev pub cons_both : Option A → Option (List A) → Option (List A)
  cons_both none xs = none
  cons_both (some x) xs = cons_some x xs

  -- An UPDATE under table constraints: `none` if a rewritten row breaks one.
  unfoldable pub update_where : (A → Bool) → (A → Option A) → List A → Option (List A)
  update_where p f [] = some []
  update_where p f (x ∷ xs) = cons_both (if p x then f x else some x) (update_where p f xs)

  -- Where no rewritten row breaks a constraint, the UPDATE is the plain one.
  pub update_where-total {κ} :
      (P : A → Type κ) (p : A → Bool) (f : A → Option A) (g : A → A) (xs : List A)
      → ((x : A) → P x → p x ≡ true → f x ≡ some (g x))
      → All P xs
      → update_where p f xs ≡ some (modify_where p g xs)
  unfolding update_where
  update_where-total P p f g [] total h = refl
  update_where-total P p f g (x ∷ xs) total h =
      ground (arith, total x h.0, update_where-total P p f g xs total h.1)

-- Sets of keys.
abbrev pub mem : String → List String → Bool
mem k [] = false
mem k (x ∷ xs) = k == x || mem k xs

abbrev pub Distinct : List String → Type 0
Distinct [] = Unit {0}
Distinct (k ∷ ks) = (mem k ks ≡ false) × Distinct ks
