-- ===== src/Strings/Parts.antt =====
-- What split and trim make of a string.
use pkt.Common.{
  ℕ, ◌≡◌, refl, sym, ap, false, List, [], ◌∷◌, ◌++◌, All, ◌==◌, ==_iff, if◌then◌else◌, Bool-cases,
  inl, inr, arith,
}
use pkt.Strings.{split, put_char}

-- The elements with the delimiter between any two of them.
abbrev pub joined : ℕ → List (List ℕ) → List ℕ
joined delim [] = []
joined delim (item ∷ []) = item
joined delim (item ∷ next ∷ items) = item ++ delim ∷ joined delim (next ∷ items)

-- The delimiter, if the string ends with it.
abbrev pub last_delim : ℕ → List ℕ → List ℕ
last_delim delim [] = []
last_delim delim (c ∷ []) = if c == delim then delim ∷ [] else []
last_delim delim (c ∷ d ∷ s) = last_delim delim (d ∷ s)

joined-put_char :
    (delim c : ℕ) (items : List (List ℕ)) → joined delim (put_char c items) ≡ c ∷ joined delim items
joined-put_char delim c [] = refl
joined-put_char delim c (item ∷ []) = refl
joined-put_char delim c (item ∷ next ∷ items) = refl

abbrev IsFilled : List (List ℕ) → Type 0
IsFilled [] = ⊥
IsFilled (item ∷ items) = Unit

put_char-IsFilled : (c : ℕ) (items : List (List ℕ)) → IsFilled (put_char c items)
put_char-IsFilled c [] = tt
put_char-IsFilled c (item ∷ items) = tt

split-IsFilled : (delim c : ℕ) (s : List ℕ) → IsFilled (split delim (c ∷ s))
unfolding split
split-IsFilled delim c s = elim (Bool-cases (c == delim)) [
  | inl same ↦ rw same tt
  | inr other ↦ rw other (put_char-IsFilled c (split delim s))
]

joined-empty :
    (delim : ℕ) (items : List (List ℕ))
    → IsFilled items
    → joined delim ([] ∷ items) ≡ delim ∷ joined delim items
joined-empty delim [] filled = absurd filled
joined-empty delim (item ∷ items) filled = refl

-- Whether a character is no delimiter.
abbrev pub IsOther : ℕ → ℕ → Type 0
IsOther delim c = (c == delim) ≡ false

put_char-IsOther :
    (delim c : ℕ) (items : List (List ℕ))
    → IsOther delim c
    → All (All (IsOther delim)) items
    → All (All (IsOther delim)) (put_char c items)
put_char-IsOther delim c [] other rest = ((other, tt), tt)
put_char-IsOther delim c (item ∷ items) other (first, rest) = ((other, first), rest)

split-IsOther : (delim : ℕ) (s : List ℕ) → All (All (IsOther delim)) (split delim s)
unfolding split
split-IsOther delim [] = tt
split-IsOther delim (c ∷ s) = elim (Bool-cases (c == delim)) [
  | inl same ↦ rw same (tt, split-IsOther delim s)
  | inr other ↦ rw other (put_char-IsOther delim c (split delim s) other (split-IsOther delim s))
]

joined-split : (delim : ℕ) (s : List ℕ) → joined delim (split delim s) ++ last_delim delim s ≡ s
unfolding split
joined-split delim [] = refl
joined-split delim (c ∷ []) = elim (Bool-cases (c == delim)) [
  | inl same ↦
      let e : c ≡ delim = omega (arith, (==_iff c delim).0 same) in
      rw same (ap (λ (x : ℕ). x ∷ []) (sym e))
  | inr other ↦ rw other refl
]
joined-split delim (c ∷ d ∷ s) = elim (Bool-cases (c == delim)) [
  | inl same ↦
      let e : c ≡ delim = (==_iff c delim).0 same in
      rw (same, joined-empty delim (split delim (d ∷ s)) (split-IsFilled delim d s), e)
        (ap (λ (t : List ℕ). delim ∷ t) (joined-split delim (d ∷ s)))
  | inr other ↦
      rw (other, joined-put_char delim c (split delim (d ∷ s)))
        (ap (λ (t : List ℕ). c ∷ t) (joined-split delim (d ∷ s)))
]

-- The elements of `split` have no delimiter in them, and joined by the delimiter they are the whole
-- string again, but for a delimiter at its end.
pub split_lem :
    (delim : ℕ) (s : List ℕ)
    → All (All (IsOther delim)) (split delim s)
      × (joined delim (split delim s) ++ last_delim delim s ≡ s)
split_lem delim s = (split-IsOther delim s, joined-split delim s)
