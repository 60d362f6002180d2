-- ===== src/Common/Bytes.antt =====
-- Little-endian numbers, and a write into the middle of a buffer.
use Prim.Native.Nat.{ℕ, zero, suc, ◌+◌, ◌*◌, ◌/◌, ◌%◌, ◌^◌, ◌≤◌, ◌<◌}
use mathlib.Core.Path.{◌≡◌, refl, ap}
use mathlib.Core.List.{List, [], ◌∷◌, reverse, reverse-append}
use native.Mathlib.Omega.{arith}
use native.Mathlib.Nat.{pow-suc}
use pkt.Common.Lists.{length, length-append, take, drop}

-- The `n` lowest bytes of a number in the memory of a little-endian host.
abbrev pub to_le : ℕ → ℕ → List ℕ
to_le zero v = []
to_le (suc n) v = v % 256 ∷ to_le n (v / 256)

-- The number that bytes in memory stand for.
abbrev pub from_le : List ℕ → ℕ
from_le [] = 0
from_le (x ∷ xs) = x + 256 * from_le xs

-- memmove(p + offset, bytes), within the buffer
abbrev pub put : List ℕ → List ℕ → List ℕ
put [] p = p
put (x ∷ xs) [] = []
put (x ∷ xs) (y ∷ p) = x ∷ put xs p

abbrev pub overwrite : List ℕ → ℕ → List ℕ → List ℕ
overwrite p zero bytes = put bytes p
overwrite [] (suc offset) bytes = []
overwrite (x ∷ p) (suc offset) bytes = x ∷ overwrite p offset bytes

pub length-to_le : (n v : ℕ) → length (to_le n v) ≡ n
length-to_le zero v = refl
length-to_le (suc n) v = ap suc (length-to_le n (v / 256))

pub take-to_le : (k n v : ℕ) → k ≤ n → take k (to_le n v) ≡ to_le k v
take-to_le zero n v h = refl
take-to_le (suc k) zero v h = absurd (omega arith)
take-to_le (suc k) (suc n) v h =
    ap (λ (t : List ℕ). v % 256 ∷ t) (take-to_le k n (v / 256) (omega arith))

pub from_le-to_le : (n v : ℕ) → v < 256 ^ n → from_le (to_le n v) ≡ v
from_le-to_le zero v h = omega arith
from_le-to_le (suc n) v h = omega (arith, from_le-to_le n (v / 256) (omega (arith, pow-suc 256 n)))

pub length-reverse : (xs : List ℕ) → length (reverse xs) ≡ length xs
length-reverse [] = refl
length-reverse (x ∷ xs) =
    rw (reverse-append (x ∷ []) xs)
      (omega (arith, length-append {0} (reverse xs) (x ∷ []), length-reverse xs))

pub take_all : (n : ℕ) (xs : List ℕ) → length xs ≤ n → take n xs ≡ xs
take_all zero [] h = refl
take_all zero (x ∷ xs) h = absurd (omega arith)
take_all (suc n) [] h = refl
take_all (suc n) (x ∷ xs) h = ap (λ (t : List ℕ). x ∷ t) (take_all n xs (omega arith))

length-put : (bytes p : List ℕ) → length (put bytes p) ≡ length p
length-put [] p = refl
length-put (x ∷ bytes) [] = refl
length-put (x ∷ bytes) (y ∷ p) = ap suc (length-put bytes p)

pub length-overwrite :
    (p : List ℕ) (offset : ℕ) (bytes : List ℕ) → length (overwrite p offset bytes) ≡ length p
length-overwrite p zero bytes = length-put bytes p
length-overwrite [] (suc offset) bytes = refl
length-overwrite (x ∷ p) (suc offset) bytes = ap suc (length-overwrite p offset bytes)

-- What was written is read back.
pub slice-overwrite_self :
    (p : List ℕ) (offset : ℕ) (bytes : List ℕ)
    → offset + length bytes ≤ length p
    → take (length bytes) (drop offset (overwrite p offset bytes)) ≡ bytes
slice-overwrite_self p zero [] h = refl
slice-overwrite_self [] zero (x ∷ bytes) h = absurd (omega arith)
slice-overwrite_self (y ∷ p) zero (x ∷ bytes) h =
    ap (λ (t : List ℕ). x ∷ t) (slice-overwrite_self p zero bytes (omega arith))
slice-overwrite_self [] (suc offset) bytes h = absurd (omega arith)
slice-overwrite_self (y ∷ p) (suc offset) bytes h =
    slice-overwrite_self p offset bytes (omega arith)

drop-put : (o : ℕ) (bytes p : List ℕ) → length bytes ≤ o → drop o (put bytes p) ≡ drop o p
drop-put o [] p h = refl
drop-put zero (x ∷ bytes) p h = absurd (omega arith)
drop-put (suc o) (x ∷ bytes) [] h = refl
drop-put (suc o) (x ∷ bytes) (y ∷ p) h = drop-put o bytes p (omega arith)

-- A read behind what was written, and one in front of it.
pub drop-overwrite_after :
    (p : List ℕ) (offset o : ℕ) (bytes : List ℕ)
    → offset + length bytes ≤ o
    → drop o (overwrite p offset bytes) ≡ drop o p
drop-overwrite_after p zero o bytes h = drop-put o bytes p (omega arith)
drop-overwrite_after [] (suc offset) o bytes h = refl
drop-overwrite_after (x ∷ p) (suc offset) zero bytes h = absurd (omega arith)
drop-overwrite_after (x ∷ p) (suc offset) (suc o) bytes h =
    drop-overwrite_after p offset o bytes (omega arith)

pub slice-overwrite_before :
    (p : List ℕ) (offset o n : ℕ) (bytes : List ℕ)
    → o + n ≤ offset
    → take n (drop o (overwrite p offset bytes)) ≡ take n (drop o p)
slice-overwrite_before p zero zero zero bytes h = refl
slice-overwrite_before p zero zero (suc n) bytes h = absurd (omega arith)
slice-overwrite_before p zero (suc o) n bytes h = absurd (omega arith)
slice-overwrite_before [] (suc offset) o n bytes h = refl
slice-overwrite_before (x ∷ p) (suc offset) zero zero bytes h = refl
slice-overwrite_before (x ∷ p) (suc offset) zero (suc n) bytes h =
    ap (λ (t : List ℕ). x ∷ t) (slice-overwrite_before p offset zero n bytes (omega arith))
slice-overwrite_before (x ∷ p) (suc offset) (suc o) n bytes h =
    slice-overwrite_before p offset o n bytes (omega arith)

-- The middle of a buffer has the length asked for.
pub length-slice : (o n : ℕ) (p : List ℕ) → o + n ≤ length p → length (take n (drop o p)) ≡ n
length-slice zero zero p h = refl
length-slice zero (suc n) [] h = absurd (omega arith)
length-slice zero (suc n) (x ∷ p) h = ap suc (length-slice zero n p (omega arith))
length-slice (suc o) n [] h = absurd (omega arith)
length-slice (suc o) n (x ∷ p) h = length-slice o n p (omega arith)
