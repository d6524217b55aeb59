-- ===== src/Payments/Logging.antt =====
-- A log of keys that were each new to a state when they were logged, as the payment guards keep one of the
-- signatures and of the authorizations that they accept.
use meterkit.Prelude.{
  ==→≡, String, ◌≡◌, refl, true, false, List, [], ◌∷◌, mem, Distinct, All, All-impl, arith, inl,
  inr, Bool-cases,
}

module _ {S : Type 0} (keys : S → List String) where
  -- The state holds the key.
  abbrev pub Has : S → String → Type 0
  Has s k = mem k (keys s) ≡ true

  -- No key is logged twice, or logged without being held now, or logged though it was held at first.
  pub record IsLogged (s₀ s : S) (ks : List String) : Type 0 where
    pub distinct : Distinct ks
    pub held : All (Has s) ks
    pub fresh : All (λ k. mem k (keys s₀) ≡ false) ks
    pub grown : (k : String) → Has s₀ k → Has s k

  pub IsLogged-start : (s : S) → IsLogged s s []
  IsLogged-start s = record { distinct = tt; held = tt; fresh = tt; grown = λ k h. h }

  absent_of :
      (s : S) (k : String) (ks : List String)
      → mem k (keys s) ≡ false
      → All (Has s) ks
      → mem k ks ≡ false
  absent_of s k [] f h = refl
  absent_of s k (j ∷ ks) f h = ground (arith, h.0, absent_of s k ks f h.1, ==→≡ k j)

  pub IsLogged-keep :
      (s₀ s s' : S) (ks : List String)
      → ((k : String) → Has s k → Has s' k)
      → IsLogged s₀ s ks
      → IsLogged s₀ s' ks
  IsLogged-keep s₀ s s' ks kept i = record {
    distinct = i.distinct;
    held = All-impl ks kept i.held;
    fresh = i.fresh;
    grown = λ k h. kept k (i.grown k h);
  }

  pub IsLogged-add :
      (s₀ s s' : S) (k : String) (ks : List String)
      → ((j : String) → Has s j → Has s' j)
      → mem k (keys s) ≡ false
      → Has s' k
      → IsLogged s₀ s ks
      → IsLogged s₀ s' (k ∷ ks)
  IsLogged-add s₀ s s' k ks kept new added i = record {
    distinct = (absent_of s k ks new i.held, i.distinct);
    held = (added, All-impl ks kept i.held);
    fresh = (
      elim (Bool-cases (mem k (keys s₀))) [ inl e ↦ cc (new, i.grown k e) | inr e ↦ e ],
      i.fresh,
    );
    grown = λ j h. kept j (i.grown j h);
  }
