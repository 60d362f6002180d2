-- ===== src/Rows/Joins.antt =====
-- The loops with a `fieldCount` write a list of texts with commas between them.
use pkt.Common.{
  ℕ, zero, suc, ◌+◌, ◌≡◌, refl, sym, ap, ◌∙◌, Option, none, some, List, [], ◌∷◌, length, arith, ◌≤◌,
}
use mathlib.Core.List.{◌++◌}
use Prim.Native.String.{String}
use text.Mathlib.TextLemmas.{append_assoc, append-nil, nil-append}
use pkt.Rows.{◌<<◌, comma, put_cell, cells_loop}

-- texts with a separator between them
abbrev pub join : String → List String → String
join sep [] = ""
join sep (x ∷ []) = x
join sep (x ∷ y ∷ ys) = x << (sep << join sep (y ∷ ys))

keep : Option String → List String → List String
keep none rest = rest
keep (some text) rest = text ∷ rest

-- the texts that a loop writes
unfoldable pub items : {A : Type 0} → (A → Option String) → List A → List String
unfolding keep
items cell [] = []
items cell (x ∷ xs) = keep (cell x) (items cell xs)

-- The texts behind as many others.
abbrev pub joined : ℕ → List String → String
joined n [] = ""
joined n (x ∷ xs) = comma n << (x << joined (n + 1) xs)

put_cell_lem :
    (n : ℕ) (o : Option String) (rest : ℕ → String × ℕ) (texts : List String)
    → ((m : ℕ) → rest m ≡ (joined m texts, m + length texts))
    → put_cell n o rest ≡ (joined n (keep o texts), n + length (keep o texts))
unfolding put_cell keep
put_cell_lem n none rest texts h = h n
put_cell_lem n (some text) rest texts h =
    rw (h (n + 1)) (ap (λ (m : ℕ). (comma n << (text << joined (n + 1) texts), m)) (omega arith))

pub cells_loop_lem :
    {A : Type 0} (cell : A → Option String) (xs : List A) (n : ℕ)
    → cells_loop cell xs n ≡ (joined n (items cell xs), n + length (items cell xs))
unfolding cells_loop items
cells_loop_lem cell [] n = ap (λ (m : ℕ). ("", m)) (omega arith)
cells_loop_lem cell (x ∷ xs) n =
    put_cell_lem n (cell x) (cells_loop cell xs) (items cell xs) (cells_loop_lem cell xs)

joined-append :
    (n m : ℕ) (xs ys : List String)
    → m ≡ n + length xs
    → joined n (xs ++ ys) ≡ joined n xs << joined m ys
joined-append n m [] ys h =
    ap (λ (k : ℕ). joined k ys) (omega arith) ∙ sym (nil-append (joined m ys))
joined-append n m (x ∷ xs) ys h =
    ap (λ (t : String). comma n << (x << t)) (joined-append (n + 1) m xs ys (omega arith))
    ∙ sym (
        append_assoc (comma n) (x << joined (n + 1) xs) (joined m ys)
        ∙ ap (λ (t : String). comma n << t) (append_assoc x (joined (n + 1) xs) (joined m ys)))

joined_behind :
    (m : ℕ) (x : String) (xs : List String) → 1 ≤ m → x << joined m xs ≡ join ", " (x ∷ xs)
joined_behind m x [] h = append-nil x
joined_behind zero x (y ∷ ys) h = absurd (omega arith)
joined_behind (suc n) x (y ∷ ys) h =
    ap (λ (t : String). x << (", " << t)) (joined_behind (suc n + 1) y ys (omega arith))

pub joined-join : (xs : List String) → joined 0 xs ≡ join ", " xs
joined-join [] = refl
joined-join (x ∷ xs) = nil-append _ ∙ joined_behind (0 + 1) x xs (omega arith)

-- Two loops that go on with one count.
pub joined_two :
    (xs ys : List String) (rest : String)
    → joined 0 xs << (joined (0 + length xs) ys << rest) ≡ join ", " (xs ++ ys) << rest
joined_two xs ys rest =
    sym (append_assoc (joined 0 xs) (joined (0 + length xs) ys) rest)
    ∙ ap (λ (t : String). t << rest)
        (sym (joined-append 0 (0 + length xs) xs ys refl) ∙ joined-join (xs ++ ys))

-- A separator between texts and others that follow them.
pub join-append :
    (sep : String) (x : String) (xs : List String) (y : String) (ys : List String)
    → join sep (x ∷ xs) << (sep << join sep (y ∷ ys)) ≡ join sep ((x ∷ xs) ++ (y ∷ ys))
join-append sep x [] y ys = refl
join-append sep x (z ∷ zs) y ys =
    append_assoc x (sep << join sep (z ∷ zs)) (sep << join sep (y ∷ ys))
    ∙ ap (λ (t : String). x << t)
        (append_assoc sep (join sep (z ∷ zs)) (sep << join sep (y ∷ ys))
          ∙ ap (λ (t : String). sep << t) (join-append sep z zs y ys))
