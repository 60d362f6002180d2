-- ===== src/Fields/Signed.antt =====
-- Signed fields: `extractFieldInt` and `setFieldInt` of utilprotobuf.cpp.
use pkt.Common.{
  ℕ, zero, suc, ◌+◌, ◌-◌, ◌*◌, ◌/◌, ◌%◌, ◌^◌, ◌≤◌, ◌<◌, ◌≡◌, refl, sym, ap, ap₂, subst, ◌∙◌, Option,
  none, some, List, ◌∷◌, ◌||◌, ◌⊎◌, inl, inr, ltb, ◌==◌, if◌then◌else◌, length, arith, Bool-cases,
}
use native.Mathlib.Nat.{pow-succ', mul_assoc, mod-add-div, mod-lt, one-le-pow}
use pkt.Common.Bytes.{to_le}
use pkt.Common.Int.{ℤ, pos, negsuc, pattern64, signed, InRange}
use pkt.Fields.{
  Field, word, extract_field, read_field, read_uint, extract_field_uint, value_bytes, move_bytes,
  set_field_uint,
}
use pkt.Fields.RoundTrip.{Lies, Disjoint, value_bytes-field_bytes, orient, extract-set_field_uint}

-- The switch of `extractFieldInt`: the default copies at most eight bytes over a zero.
abbrev pub read_int : ℕ → List ℕ → ℤ
read_int sz r =
    if sz == 0
    then pos 0
    else if sz == 1
    then signed 8 (word 1 r)
    else if sz == 2
    then signed 16 (word 2 r)
    else if sz == 4
    then signed 32 (word 4 r)
    else if sz == 8
    then signed 64 (word 8 r)
    else signed 64 (word (if ltb sz 8 then sz else 8) r)

unfoldable pub extract_field_int : List ℕ → Field → Option ℤ
unfolding read_field
extract_field_int packet field = read_field read_int field.size (extract_field packet field)

unfoldable pub set_field_int : List ℕ → Field → ℤ → Option (List ℕ)
unfolding value_bytes move_bytes
set_field_int packet field value =
    if field.size == 0
    then some packet
    else move_bytes packet field.offset (value_bytes field (pattern64 value))

-- What is added above the lowest `n` bytes does not show in them.
to_le-add : (n u q t : ℕ) → t ≡ 256 ^ n * q → to_le n (u + t) ≡ to_le n u
to_le-add zero u q t e = refl
to_le-add (suc n) u q t e =
    let s : ℕ = 256 ^ n * q in
    let split : t ≡ 256 * s =
      e ∙ (ap (λ (k : ℕ). k * q) (pow-succ' 256 n) ∙ mul_assoc 256 (256 ^ n) q) in
    ap₂ (λ (x : ℕ) (xs : List ℕ). x ∷ xs) (omega arith)
      (ap (to_le n) (omega (arith, split)) ∙ to_le-add n (u / 256) q s refl)

to_le-mod : (n u : ℕ) → to_le n u ≡ to_le n (u % 256 ^ n)
to_le-mod n u =
    ap (to_le n) (sym (mod-add-div u (256 ^ n)))
    ∙ to_le-add n (u % 256 ^ n) (u / 256 ^ n) (256 ^ n * (u / 256 ^ n)) refl

-- An integer is written as the number that its lowest bytes stand for.
set_field_int-set_field_uint :
    (packet : List ℕ) (field : Field) (value : ℤ)
    → Lies field packet
    → set_field_int packet field value
      ≡ set_field_uint packet field (pattern64 value % 256 ^ field.size)
unfolding set_field_int set_field_uint
set_field_int-set_field_uint packet field value l =
    ap
      (λ (o : Option (List ℕ)).
        if field.size == 0 then some packet else move_bytes packet field.offset o)
      (value_bytes-field_bytes field (pattern64 value) l.some_bytes l.word_size
        ∙ ap (λ (bytes : List ℕ). some (orient field bytes))
            (to_le-mod field.size (pattern64 value))
        ∙ sym (
            value_bytes-field_bytes field (pattern64 value % 256 ^ field.size) l.some_bytes
              l.word_size))

-- The size of an integer type.
abbrev pub IsWord : ℕ → Type 0
IsWord sz = (sz ≡ 1) ⊎ ((sz ≡ 2) ⊎ ((sz ≡ 4) ⊎ (sz ≡ 8)))

-- What `extractFieldInt` makes of the number that `extractFieldUInt` reads.
abbrev pub as_int : ℕ → ℕ → ℤ
as_int sz u =
    if sz == 1 || (sz == 2 || (sz == 4 || sz == 8)) then signed (8 * sz) u else signed 64 u

read_int-as_int :
    (sz : ℕ) (r : List ℕ) → sz ≤ 8 → 1 ≤ sz → read_int sz r ≡ as_int sz (read_uint sz r)
read_int-as_int zero r h k = absurd (omega arith)
read_int-as_int (suc zero) r h k = refl
read_int-as_int (suc (suc zero)) r h k = refl
read_int-as_int (suc (suc (suc zero))) r h k = refl
read_int-as_int (suc (suc (suc (suc zero)))) r h k = refl
read_int-as_int (suc (suc (suc (suc (suc zero))))) r h k = refl
read_int-as_int (suc (suc (suc (suc (suc (suc zero)))))) r h k = refl
read_int-as_int (suc (suc (suc (suc (suc (suc (suc zero))))))) r h k = refl
read_int-as_int (suc (suc (suc (suc (suc (suc (suc (suc zero)))))))) r h k = refl
read_int-as_int (suc (suc (suc (suc (suc (suc (suc (suc (suc n))))))))) r h k = absurd (omega arith)

read_field-as_int :
    (sz u : ℕ) (o : Option (List ℕ))
    → sz ≤ 8
    → 1 ≤ sz
    → read_field read_uint sz o ≡ some u
    → read_field read_int sz o ≡ some (as_int sz u)
unfolding read_field
read_field-as_int sz u none h k e = cc e
read_field-as_int sz u (some r) h k e = elim (Bool-cases (ltb (length r) sz)) [
  | inl short ↦ absurd_none (rw short at e)
  | inr enough ↦
      rw enough (ap some (read_int-as_int sz r h k ∙ ap (as_int sz) (number (rw enough at e))))
]
  where
    absurd_none :
        none ≡ some u
        → (if ltb (length r) sz then none else some (read_int sz r)) ≡ some (as_int sz u)
    absurd_none x = cc x

    number : some (read_uint sz r) ≡ some u → read_uint sz r ≡ u
    number x = cc x

pub extract_field_int-as_int :
    (packet : List ℕ) (field : Field) (u : ℕ)
    → field.size ≤ 8
    → 1 ≤ field.size
    → extract_field_uint packet field ≡ some u
    → extract_field_int packet field ≡ some (as_int field.size u)
unfolding extract_field_int extract_field_uint
extract_field_int-as_int packet field u h k e =
    read_field-as_int field.size u (extract_field packet field) h k e

-- The pattern of a number in range, cut to the field, stands for the number.
Restored : ℕ → ℤ → Type 0
Restored sz value = InRange (8 * sz) value → as_int sz (pattern64 value % 256 ^ sz) ≡ value

Restored-1 : (value : ℤ) → Restored 1 value
unfolding Restored
Restored-1 (pos n) r = ground arith
Restored-1 (negsuc n) r = ground arith

Restored-2 : (value : ℤ) → Restored 2 value
unfolding Restored
Restored-2 (pos n) r = ground arith
Restored-2 (negsuc n) r = ground arith

Restored-4 : (value : ℤ) → Restored 4 value
unfolding Restored
Restored-4 (pos n) r = ground arith
Restored-4 (negsuc n) r = ground arith

Restored-8 : (value : ℤ) → Restored 8 value
unfolding Restored
Restored-8 (pos n) r = ground arith
Restored-8 (negsuc n) r = ground arith

restored : (sz : ℕ) (value : ℤ) → IsWord sz → Restored sz value
restored sz value (inl e) = subst (λ k. Restored k value) (sym e) (Restored-1 value)
restored sz value (inr (inl e)) = subst (λ k. Restored k value) (sym e) (Restored-2 value)
restored sz value (inr (inr (inl e))) = subst (λ k. Restored k value) (sym e) (Restored-4 value)
restored sz value (inr (inr (inr e))) = subst (λ k. Restored k value) (sym e) (Restored-8 value)

-- What `setFieldInt` leaves, and what `extractFieldInt` reads there.
written_int :
    (packet : List ℕ) (field : Field) (value : ℤ)
    → Lies field packet
    → (packet' : List ℕ) × (set_field_int packet field value ≡ some packet')
      × (extract_field_int packet' field
          ≡ some (as_int field.size (pattern64 value % 256 ^ field.size)))
      × (length packet' ≡ length packet)
      × ((g : Field)
          → Lies g packet
          → Disjoint field g
          → extract_field packet' g ≡ extract_field packet g)
written_int packet field value l =
    let (packet', set, read, len, others) =
      extract-set_field_uint packet field (pattern64 value % 256 ^ field.size) l
        (mod-lt (pattern64 value) (one-le-pow field.size 256 (omega arith))) in
    (
      packet',
      set_field_int-set_field_uint packet field value l ∙ set,
      extract_field_int-as_int packet' field _ l.word_size l.some_bytes read,
      len,
      others,
    )

-- A signed number in the range of a field of one, two, four or eight bytes, in either order of
-- bytes, is read back by `extractFieldInt` from the packet that `setFieldInt` leaves. That packet has
-- the length of the one before, and of each field that has no byte in common with the first the same
-- is extracted as before.
pub extract-set_field_int :
    (packet : List ℕ) (field : Field) (value : ℤ)
    → Lies field packet
    → IsWord field.size
    → InRange (8 * field.size) value
    → (packet' : List ℕ) × (set_field_int packet field value ≡ some packet')
      × (extract_field_int packet' field ≡ some value)
      × (length packet' ≡ length packet)
      × ((g : Field)
          → Lies g packet
          → Disjoint field g
          → extract_field packet' g ≡ extract_field packet g)
extract-set_field_int packet field value l w range =
    let (packet', set, read, len, others) = written_int packet field value l in
    (
      packet',
      set,
      read ∙ ap some (unfold Restored in restored field.size value w range),
      len,
      others,
    )

-- A size that no integer type has.
abbrev pub IsOdd : ℕ → Type 0
IsOdd sz = (sz ≡ 3) ⊎ ((sz ≡ 5) ⊎ ((sz ≡ 6) ⊎ (sz ≡ 7)))

Lost : ℕ → ℕ → Type 0
Lost sz n = n < 256 ^ sz → as_int sz (pattern64 (negsuc n) % 256 ^ sz) ≡ pos (256 ^ sz - 1 - n)

lost : (sz n : ℕ) → IsOdd sz → Lost sz n
unfolding Lost
lost sz n (inl e) = subst (λ k. Lost k n) (sym e) (λ h. ground arith)
lost sz n (inr (inl e)) = subst (λ k. Lost k n) (sym e) (λ h. ground arith)
lost sz n (inr (inr (inl e))) = subst (λ k. Lost k n) (sym e) (λ h. ground arith)
lost sz n (inr (inr (inr e))) = subst (λ k. Lost k n) (sym e) (λ h. ground arith)

-- The sign of a number in a field of three, five, six or seven bytes is lost: where `setFieldInt`
-- has written -(n + 1), `extractFieldInt` reads 256^size - 1 - n.
pub extract-set_field_int_odd :
    (packet : List ℕ) (field : Field) (n : ℕ)
    → Lies field packet
    → IsOdd field.size
    → n < 256 ^ field.size
    → (packet' : List ℕ) × (set_field_int packet field (negsuc n) ≡ some packet')
      × (extract_field_int packet' field ≡ some (pos (256 ^ field.size - 1 - n)))
extract-set_field_int_odd packet field n l odd small =
    let (packet', set, read, len, others) = written_int packet field (negsuc n) l in
    (packet', set, read ∙ ap some (unfold Lost in lost field.size n odd small))
