-- ===== src/Strings/Trim.antt =====
-- What trim leaves of a string.
use pkt.Common.{
  ℕ, ◌≡◌, refl, sym, ap, ◌∙◌, true, false, List, [], ◌∷◌, ◌++◌, All, Bool-cases, inl, inr,
}
use mathlib.Core.List.{reverse, reverse-append, reverse-reverse}
use pkt.Strings.{is_space, ltrim, rtrim, trim}

abbrev pub IsSpace : ℕ → Type 0
IsSpace c = is_space c ≡ true

-- The string does not begin with a space.
abbrev pub Begins : List ℕ → Type 0
Begins [] = Unit
Begins (c ∷ s) = is_space c ≡ false

Begins-prefix : (s t : List ℕ) → Begins (s ++ t) → Begins s
Begins-prefix [] t h = tt
Begins-prefix (c ∷ s) t h = h

ltrim-Begins : (s : List ℕ) → Begins (ltrim s)
unfolding ltrim
ltrim-Begins [] = tt
ltrim-Begins (c ∷ s) = elim (Bool-cases (is_space c)) [
  | inl space ↦ rw space (ltrim-Begins s)
  | inr other ↦ rw other other
]

ltrim_lem : (s : List ℕ) → (front : List ℕ) × All IsSpace front × (s ≡ front ++ ltrim s)
unfolding ltrim
ltrim_lem [] = ([], tt, refl)
ltrim_lem (c ∷ s) = elim (Bool-cases (is_space c)) [
  | inl space ↦
      let (front, spaces, whole) = ltrim_lem s in
      (c ∷ front, (space, spaces), rw space (ap (λ (t : List ℕ). c ∷ t) whole))
  | inr other ↦ ([], tt, rw other refl)
]

All-append : (s t : List ℕ) → All IsSpace s → All IsSpace t → All IsSpace (s ++ t)
All-append [] t h k = k
All-append (c ∷ s) t (space, h) k = (space, All-append s t h k)

All-reverse : (s : List ℕ) → All IsSpace s → All IsSpace (reverse s)
All-reverse [] h = tt
All-reverse (c ∷ s) (space, h) =
    rw (reverse-append (c ∷ []) s) (All-append (reverse s) (c ∷ []) (All-reverse s h) (space, tt))

rtrim_lem : (s : List ℕ) → (back : List ℕ) × All IsSpace back × (s ≡ rtrim s ++ back)
unfolding rtrim
rtrim_lem s =
    let (front, spaces, whole) = ltrim_lem (reverse s) in
    (
      reverse front,
      All-reverse front spaces,
      sym (reverse-reverse s) ∙ ap reverse whole ∙ reverse-append front (ltrim (reverse s)),
    )

reverse-rtrim : (s : List ℕ) → reverse (rtrim s) ≡ ltrim (reverse s)
unfolding rtrim
reverse-rtrim s = reverse-reverse (ltrim (reverse s))

-- `trim` takes only spaces from the two ends of a string, and what it leaves neither begins nor ends
-- with a space.
pub trim_lem :
    (s : List ℕ)
    → (front : List ℕ) × (back : List ℕ) × All IsSpace front
      × All IsSpace back
      × (s ≡ front ++ trim s ++ back)
      × Begins (trim s)
      × Begins (reverse (trim s))
unfolding trim
trim_lem s =
    let (back, spaces, whole) = rtrim_lem s in
    let (front, spaces', whole') = ltrim_lem (rtrim s) in
    let ends : ltrim (reverse s) ≡ reverse (ltrim (rtrim s)) ++ reverse front =
      sym (reverse-rtrim s) ∙ ap reverse whole' ∙ reverse-append front (ltrim (rtrim s)) in
    (
      front,
      back,
      spaces',
      spaces,
      whole ∙ ap (λ (t : List ℕ). t ++ back) whole',
      ltrim-Begins (rtrim s),
      Begins-prefix (reverse (ltrim (rtrim s))) (reverse front)
          (rw⁻¹ ends (ltrim-Begins (reverse s))),
    )
