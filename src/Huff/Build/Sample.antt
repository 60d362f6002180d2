-- ===== src/Huff/Build/Sample.antt =====
-- The tree and the codes that are made from the frequencies of a sample.
use pkt.Common.{
  ℕ, zero, suc, ◌+◌, ◌≤◌, ◌<◌, ◌≡◌, refl, ap, ◌∙◌, Option, none, some, List, [], ◌∷◌, length,
  length-replicate, get_elem?, replicate, ◌==◌, if◌then◌else◌, arith, inl, inr,
}
use pkt.Huff.Node.{HuffCode, LeafNode, Node, find, generate_codes, find_code}
use pkt.Huff.Node.Codes.{find_code-generate_codes}
use pkt.Huff.Build.{PriorityQueue, bump, frequencies_loop, build_frequencies, build_tree}
use pkt.Huff.Build.Leaves.{present, sum, build_tree_wrap}

-- How often a byte occurs.
abbrev pub occurrences : ℕ → List ℕ → ℕ
occurrences c [] = 0
occurrences c (x ∷ xs) = (if x == c then 1 else 0) + occurrences c xs

length-bump : (fs : List ℕ) (x : ℕ) → length (bump fs x) ≡ length fs
unfolding bump
length-bump [] x = refl
length-bump (n ∷ fs) zero = refl
length-bump (n ∷ fs) (suc x) = ap suc (length-bump fs x)

get_elem?-bump :
    (fs : List ℕ) (x c k : ℕ)
    → get_elem? fs c ≡ some k
    → get_elem? (bump fs x) c ≡ some (k + (if x == c then 1 else 0))
unfolding bump
get_elem?-bump [] x c k h = cc
get_elem?-bump (n ∷ fs) zero zero k h = ground arith
get_elem?-bump (n ∷ fs) zero (suc c) k h = ground arith
get_elem?-bump (n ∷ fs) (suc x) zero k h = ground arith
get_elem?-bump (n ∷ fs) (suc x) (suc c) k h = ground (arith, get_elem?-bump fs x c k h)

get_elem?-frequencies_loop :
    (fs bytes : List ℕ) (c k : ℕ)
    → get_elem? fs c ≡ some k
    → get_elem? (frequencies_loop fs bytes) c ≡ some (k + occurrences c bytes)
unfolding frequencies_loop
get_elem?-frequencies_loop fs [] c k h = ground arith
get_elem?-frequencies_loop fs (x ∷ bytes) c k h = ground (
  arith,
  get_elem?-frequencies_loop (bump fs x) bytes c (k + (if x == c then 1 else 0))
      (get_elem?-bump fs x c k h),
)

length-frequencies_loop : (fs bytes : List ℕ) → length (frequencies_loop fs bytes) ≡ length fs
unfolding frequencies_loop
length-frequencies_loop fs [] = refl
length-frequencies_loop fs (x ∷ bytes) =
    length-frequencies_loop (bump fs x) bytes ∙ length-bump fs x

get_elem?-replicate : (n c : ℕ) → c < n → get_elem? {A = ℕ} (replicate n 0) c ≡ some 0
get_elem?-replicate zero c h = absurd (omega arith)
get_elem?-replicate (suc n) zero h = refl
get_elem?-replicate (suc n) (suc c) h = get_elem?-replicate n c (omega arith)

-- `buildFrequencies` counts how often each symbol occurs.
pub get_elem?-build_frequencies :
    (symbols_size : ℕ) (bytes : List ℕ) (c : ℕ)
    → c < symbols_size
    → get_elem? (build_frequencies symbols_size bytes) c ≡ some (occurrences c bytes)
unfolding build_frequencies
get_elem?-build_frequencies symbols_size bytes c h = ground (
  arith,
  get_elem?-frequencies_loop (replicate symbols_size 0) bytes c 0
      (get_elem?-replicate symbols_size c h),
)

sum-get_elem? : (fs : List ℕ) (c k : ℕ) → get_elem? fs c ≡ some k → k ≤ sum fs
sum-get_elem? [] c k h = cc
sum-get_elem? (n ∷ fs) zero k h = ground arith
sum-get_elem? (n ∷ fs) (suc c) k h = omega (arith, sum-get_elem? fs c k h)

present-le-one : (o : Option ℕ) → present o ≤ 1
present-le-one none = omega arith
present-le-one (some n) = ground arith

-- The tree that `buildTree` makes of the frequencies of a sample, and the map that
-- `generateCodes` makes of the tree, have a code for each byte of the sample, and `find_code`
-- leads from the code back to the byte.
pub codes_of_sample :
    (queue : PriorityQueue) (sample : List ℕ) (c : ℕ)
    → c < 256
    → 1 ≤ occurrences c sample
    → (t : Node) × (code : HuffCode) × (lf : LeafNode) × (build_tree queue
          (build_frequencies 256 sample)
        ≡ some t)
      × (find (generate_codes [] t []) c ≡ some code)
      × (find_code t code ≡ some lf)
      × (lf.c ≡ c)
codes_of_sample queue sample c small occurs =
    elim (build_tree_wrap queue (build_frequencies 256 sample) size) [
      | inl (built, zero_sum) ↦ absurd (omega (arith, sum-get_elem? _ c _ there))
      | inr (t, built, counts, w, fresh) ↦
          let found =
            find_code-generate_codes t c
              (λ k. rw (counts k) (present-le-one (get_elem? (build_frequencies 256 sample) k)))
              (rw (counts c, there) (ground arith)) in
          (t, found.0, found.1, built, found.2, found.3, found.4)
    ]
  where
    size : length (build_frequencies 256 sample) ≤ 256
    size = omega (arith, fixed)
      where
        fixed : length (build_frequencies 256 sample) ≡ 256
        fixed =
            unfold build_frequencies in
            length-frequencies_loop (replicate 256 0) sample ∙ length-replicate {A = ℕ} 256 0

    there : get_elem? (build_frequencies 256 sample) c ≡ some (occurrences c sample)
    there = get_elem?-build_frequencies 256 sample c small
