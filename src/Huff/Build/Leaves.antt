-- ===== src/Huff/Build/Leaves.antt =====
-- The trees that are built: their leaves and their weight.
use pkt.Common.{
  ℕ, zero, suc, ◌+◌, ◌-◌, ◌%◌, ◌^◌, ◌≤◌, ◌<◌, ltb, ==_refl, ◌≡◌, refl, sym, ap, ◌∙◌, Option, none,
  some, List, [], ◌∷◌, length, get_elem?, ◌==◌, leb, if◌then◌else◌, arith, ◌⊎◌, inl, inr,
  Bool-cases,
}
use pkt.Huff.Node.{Node, leaf, internal, IsFresh, weight, internal_node, count}
use pkt.Huff.Build.{total, PriorityQueue, leaves_from, join_next, merge, build_tree}

pub total-one : (q : List Node) → total (λ n. 1) q ≡ length q
total-one [] = refl
total-one (n ∷ q) = omega (arith, total-one q)

module _ (queue : PriorityQueue) (join : Node → Node → Node) where
  -- The loop ends on `q` with one tree, and a sum that `join` keeps has become that of the tree.
  abbrev Merges : ℕ → List Node → List Node → Type 0
  Merges fuel now before =
      (t : Node) × (merge queue join fuel now ≡ some t)
      × ((p : Node → ℕ) → ((l r : Node) → p (join l r) ≡ p l + p r) → p t ≡ total p before)

  merge_next :
      (fuel : ℕ) (childR : Node) (q before : List Node)
      → length before ≡ suc (length q)
      → 1 ≤ length q
      → length q ≤ fuel + 1
      → ((p : Node → ℕ) → p childR + total p q ≡ total p before)
      → ((n : Node) (now : List Node)
          → length (n ∷ now) ≤ fuel + 1
          → Merges fuel (n ∷ now) (n ∷ now))
      → Merges fuel (join_next queue join childR q) before
  unfolding join_next
  merge_next fuel childR [] before len some_left room same ih = absurd (omega arith)
  merge_next fuel childR (n ∷ q) before len some_left room same ih =
      let childL = (queue.pop n q).0 in
      let q' = (queue.pop n q).1 in
      let len' = queue.pop-total (λ n. 1) n q in
      let (t, merged, kept) =
        ih (join childR childL) q' (omega (arith, total-one q, total-one q')) in
      (
        t,
        merged,
        λ p additive.
            omega (arith, kept p additive, additive childR childL, queue.pop-total p n q, same p),
      )

  merge-total :
      (fuel : ℕ) (n : Node) (q : List Node)
      → length (n ∷ q) ≤ fuel + 1
      → Merges fuel (n ∷ q) (n ∷ q)
  unfolding merge
  merge-total zero n [] h = (n, refl, λ p additive. omega arith)
  merge-total zero n (m ∷ q) h = absurd (omega arith)
  merge-total (suc fuel) n [] h = (n, refl, λ p additive. omega arith)
  merge-total (suc fuel) n (m ∷ q) h =
      let childR = (queue.pop n (m ∷ q)).0 in
      let q' = (queue.pop n (m ∷ q)).1 in
      let len' : 1 + total (λ n. 1) q' ≡ 1 + total (λ n. 1) (m ∷ q) =
        queue.pop-total (λ n. 1) n (m ∷ q) in
      merge_next fuel childR q' (n ∷ m ∷ q) (omega (arith, total-one q, total-one q'))
        (omega (arith, total-one q, total-one q')) (omega (arith, total-one q, total-one q'))
        (λ p. queue.pop-total p n (m ∷ q)) (merge-total fuel)

-- 1 for a symbol with a frequency other than 0.
abbrev pub present : Option ℕ → ℕ
present none = 0
present (some n) = if n == 0 then 0 else 1

abbrev pub sum : List ℕ → ℕ
sum [] = 0
sum (n ∷ ns) = n + sum ns

-- One leaf for each symbol that occurs, with its byte for a character.
count-leaves_from :
    (i c : ℕ) (frequencies : List ℕ)
    → i + length frequencies ≤ 256
    → total (count c) (leaves_from i frequencies)
      ≡ (if leb i c then present (get_elem? frequencies (c - i)) else 0)
unfolding leaves_from count
count-leaves_from i c [] h = ground arith
count-leaves_from i c (n ∷ frequencies) h =
    let rest = count-leaves_from (i + 1) c frequencies (omega arith) in
    elim (Bool-cases (c == i)) [
      | inl here ↦ let zeroth : c - i ≡ 0 = ground arith in rw zeroth (ground (arith, rest))
      | inr elsewhere ↦ elim (Bool-cases (leb i c)) [
        | inl later ↦
            let further : c - i ≡ suc (c - (i + 1)) = ground arith in
            rw further (ground (arith, rest))
        | inr before ↦ ground (arith, rest)
      ]
    ]

sum-leaves_from :
    (i : ℕ) (frequencies : List ℕ) → leaves_from i frequencies ≡ [] → sum frequencies ≡ 0
unfolding leaves_from
sum-leaves_from i [] e = refl
sum-leaves_from i (n ∷ frequencies) e = elim (Bool-cases (n == 0)) [
  | inl zero_times ↦
      let rest : leaves_from (i + 1) frequencies ≡ [] = cc (zero_times, e) in
      ground (arith, zero_times, sum-leaves_from (i + 1) frequencies rest)
  | inr some_times ↦ cc (some_times, e)
]

-- The sum of the weights of the leaves.
leaf_sum : Node → ℕ
leaf_sum (leaf lf) = lf.f
leaf_sum (internal f l r) = leaf_sum l + leaf_sum r

leaf_sum-leaves_from :
    (i : ℕ) (frequencies : List ℕ)
    → total leaf_sum (leaves_from i frequencies) % 2 ^ 32 ≡ sum frequencies % 2 ^ 32
unfolding leaves_from leaf_sum
leaf_sum-leaves_from i [] = refl
leaf_sum-leaves_from i (n ∷ frequencies) = ground (arith, leaf_sum-leaves_from (i + 1) frequencies)

-- How many nodes have a weight that does not fit 32 bits, or is not that of their children.
misweighed : Node → ℕ
misweighed (leaf lf) = if ltb lf.f (2 ^ 32) then 0 else 1
misweighed (internal f l r) =
    misweighed l + misweighed r + (if f == (weight l + weight r) % 2 ^ 32 then 0 else 1)

misweighed-leaves_from :
    (i : ℕ) (frequencies : List ℕ) → total misweighed (leaves_from i frequencies) ≡ 0
unfolding leaves_from misweighed
misweighed-leaves_from i [] = refl
misweighed-leaves_from i (n ∷ frequencies) =
    ground (arith, misweighed-leaves_from (i + 1) frequencies)

misweighed-internal_node :
    (l r : Node) → misweighed (internal_node l r) ≡ misweighed l + misweighed r
unfolding misweighed internal_node
misweighed-internal_node l r = rw (==_refl ((weight l + weight r) % 2 ^ 32)) (omega arith)

weight-leaf_sum : (n : Node) → misweighed n ≡ 0 → weight n ≡ leaf_sum n % 2 ^ 32
unfolding misweighed weight leaf_sum
weight-leaf_sum (leaf lf) h = ground arith
weight-leaf_sum (internal f l r) h =
    ground (arith, weight-leaf_sum l (omega arith), weight-leaf_sum r (omega arith))

-- How many leaves have a flag.
marks : Node → ℕ
marks (leaf lf) = if lf.flags == 0 then 0 else 1
marks (internal f l r) = marks l + marks r

IsFresh-marks : (n : Node) → marks n ≡ 0 → IsFresh n
unfolding marks
IsFresh-marks (leaf lf) h = ground arith
IsFresh-marks (internal f l r) h = (IsFresh-marks l (omega arith), IsFresh-marks r (omega arith))

marks-leaves_from : (i : ℕ) (frequencies : List ℕ) → total marks (leaves_from i frequencies) ≡ 0
unfolding leaves_from marks
marks-leaves_from i [] = refl
marks-leaves_from i (n ∷ frequencies) = ground (arith, marks-leaves_from (i + 1) frequencies)

-- The tree that is built, with its weight as a pattern of 32 bits.
pub build_tree_wrap :
    (queue : PriorityQueue) (frequencies : List ℕ)
    → length frequencies ≤ 256
    → ((build_tree queue frequencies ≡ none) × (sum frequencies ≡ 0))
      ⊎ ((t : Node) × (build_tree queue frequencies ≡ some t)
          × ((c : ℕ) → count c t ≡ present (get_elem? frequencies c))
          × (weight t ≡ sum frequencies % 2 ^ 32)
          × IsFresh t)
unfolding build_tree
build_tree_wrap queue frequencies h = cases (leaves_from 0 frequencies) refl
  where
    from_zero :
        (c : ℕ)
        → (if leb 0 c then present (get_elem? frequencies (c - 0)) else 0)
          ≡ present (get_elem? frequencies c)
    from_zero c = let same : c - 0 ≡ c = omega arith in rw same (ground arith)

    cases :
        (trees : List Node)
        → leaves_from 0 frequencies ≡ trees
        → ((merge queue (λ childR childL. internal_node childR childL) (length trees) trees ≡ none)
            × (sum frequencies ≡ 0))
          ⊎ ((t : Node) × (merge queue
                  (λ childR childL. internal_node childR childL)
                  (length trees)
                  trees
                ≡ some t)
              × ((c : ℕ) → count c t ≡ present (get_elem? frequencies c))
              × (weight t ≡ sum frequencies % 2 ^ 32)
              × IsFresh t)
    cases [] e = inl (unfold merge in refl, sum-leaves_from 0 frequencies e)
    cases (n ∷ q) e =
        let (t, merged, kept) =
          merge-total queue (λ childR childL. internal_node childR childL) (length (n ∷ q)) n q
            (omega arith) in
        inr (
          t,
          merged,
          λ c.
              kept (count c) (λ l r. unfold internal_node count in refl)
              ∙ ap (total (count c)) (sym e)
              ∙ count-leaves_from 0 c frequencies (omega arith)
              ∙ from_zero c,
          weight-leaf_sum t (
                kept misweighed misweighed-internal_node
                ∙ ap (total misweighed) (sym e)
                ∙ misweighed-leaves_from 0 frequencies)
              ∙ ap (λ (m : ℕ). m % 2 ^ 32)
                  (kept leaf_sum (λ l r. unfold internal_node leaf_sum in refl)
                    ∙ ap (total leaf_sum) (sym e))
              ∙ leaf_sum-leaves_from 0 frequencies,
          IsFresh-marks t (
              kept marks (λ l r. unfold internal_node marks in refl)
              ∙ ap (total marks) (sym e)
              ∙ marks-leaves_from 0 frequencies),
        )

-- For frequencies whose sum fits an int: `buildTree` gives no tree if every frequency is 0. Otherwise
-- it gives a tree with one leaf for each symbol whose frequency is not 0, no other leaf, no flag
-- set, and the sum of the frequencies for its weight.
pub build_tree_lem :
    (queue : PriorityQueue) (frequencies : List ℕ)
    → length frequencies ≤ 256
    → sum frequencies < 2 ^ 31
    → ((build_tree queue frequencies ≡ none) × (sum frequencies ≡ 0))
      ⊎ ((t : Node) × (build_tree queue frequencies ≡ some t)
          × ((c : ℕ) → count c t ≡ present (get_elem? frequencies c))
          × (weight t ≡ sum frequencies)
          × IsFresh t)
build_tree_lem queue frequencies h small = elim (build_tree_wrap queue frequencies h) [
  | inl nothing ↦ inl nothing
  | inr (t, built, counts, w, fresh) ↦ inr (t, built, counts, omega (arith, w), fresh)
]
