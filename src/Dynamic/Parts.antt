-- ===== src/Dynamic/Parts.antt =====
-- Cutting a path at its slashes and joining the parts.
use Prim.Native.Char.{Char, code}
use Prim.Native.String.{char_at}
use Prim.Native.String
use Prim.Native.String.append.{nil, cons}
use text.Mathlib.TextEquality.{Char-path}
use meterkit.Prelude.{
  ℕ, String, ◌≡◌, ◌∙◌, refl, ap, sym, Bool, true, not, ◌&&◌, nat_eq, List, [], ◌∷◌, Bool-cases, inl,
  inr, arith,
}
use meterkit.Platform.{is_base58}
use meterkit.Dynamic.{split_slash}

-- A text without a slash.
abbrev pub is_part : String → Bool
is_part String.[] = true
is_part (String.◌∷◌ c s) = not (nat_eq (code c) b'/') && is_part s

-- The parts with a slash between two.
abbrev pub join_parts : List String → String
join_parts [] = ""
join_parts (s ∷ []) = s
join_parts (s ∷ t ∷ ts) = String.◌++◌ s (String.◌++◌ "/" (join_parts (t ∷ ts)))

abbrev slash : Char
slash = char_at "/" 0

pub slash-split : (t : String) → split_slash (String.◌++◌ "/" t) ≡ "" ∷ split_slash t
unfolding split_slash
slash-split t = rw (cons slash String.[] t, nil t) refl

pub part-split :
    (s t : String) (rest : List String)
    → is_part s ≡ true
    → split_slash t ≡ "" ∷ rest
    → split_slash (String.◌++◌ s t) ≡ s ∷ rest
unfolding split_slash
part-split String.[] t rest p e = rw (nil t) e
part-split (String.◌∷◌ c s) t rest p e = rw (cons c s t) (ground (arith, part-split s t rest, p, e))

pub last-split : (s : String) → is_part s ≡ true → split_slash s ≡ s ∷ []
unfolding split_slash
last-split String.[] p = refl
last-split (String.◌∷◌ c s) p = ground (arith, last-split s, p)

-- Every text is the join of its parts, and no list of parts is empty.
code-slash : (c : Char) → nat_eq (code c) b'/' ≡ true → c ≡ slash
code-slash c h = Char-path c slash (ground arith)

head_char :
    (c : Char) (s : String) (ss : List String)
    → join_parts (String.◌∷◌ c s ∷ ss) ≡ String.◌∷◌ c (join_parts (s ∷ ss))
head_char c s [] = refl
head_char c s (t ∷ ts) = cons c s (String.◌++◌ "/" (join_parts (t ∷ ts)))

split-cons : (s : String) → (t : String) × (ts : List String) × (split_slash s ≡ t ∷ ts)
unfolding split_slash
split-cons String.[] = ("", [], refl)
split-cons (String.◌∷◌ c s) = elim (Bool-cases (nat_eq (code c) b'/')) [
  | inl e ↦ (String.[], split_slash s, rw e refl)
  | inr e ↦ let (t, ts, h) = split-cons s in (String.◌∷◌ c t, ts, rw (e, h) refl)
]

split_head :
    (c : Char) (t : String) (ts : List String) (s : String)
    → c ≡ slash
    → join_parts (t ∷ ts) ≡ s
    → String.◌∷◌ slash (join_parts (t ∷ ts)) ≡ String.◌∷◌ c s
split_head c t ts s e h = rw (e, h) refl

pub join-split : (s : String) → join_parts (split_slash s) ≡ s
unfolding split_slash
join-split String.[] = refl
join-split (String.◌∷◌ c s) =
    let (t, ts, h) = split-cons s in
    elim (Bool-cases (nat_eq (code c) b'/')) [
      | inl e ↦
          rw (e, h)
            (nil _
              ∙ cons slash String.[] _
              ∙ ap (String.◌∷◌ slash) (nil _)
              ∙ split_head c t ts s (code-slash c e) (ap join_parts (sym h) ∙ join-split s))
      | inr e ↦
          rw (e, h, head_char c t ts) (ap (String.◌∷◌ c) (ap join_parts (sym h) ∙ join-split s))
    ]

pub not_slash : (c : ℕ) → is_base58 c ≡ true → not (nat_eq c b'/') ≡ true
unfolding is_base58
not_slash c h = ground (arith, h)
