-- ===== src/Media/Bencode/Decimal.antt =====
-- Numbers and texts of infra/media/RtpEngineClient.js, read back.
use callio.Prelude.{
  ℕ, zero, suc, ◌+◌, ◌-◌, ◌*◌, ◌/◌, ◌%◌, ◌<◌, ◌≤◌, ◌≡◌, refl, sym, ap, ◌∙◌, inl, inr, true, false,
  some, List, [], ◌∷◌, ◌++◌, ◌==◌, ltb, length, all, drop, arith, Bool-cases, append_assoc,
}
use callio.Media.Bencode.{
  ℤ, pos, negsuc, integer, as_integer, as_text, decimal, decode_integer, decode_text, digits_onto,
  encode_text, is_digit, parse_int, parse_natural, read_digits, show_integer, split_at, take,
}

read_digits-onto :
    (fuel n : ℕ) (bytes : List ℕ)
    → n < fuel
    → read_digits 0 (digits_onto fuel n bytes) ≡ read_digits n bytes
unfolding read_digits digits_onto
read_digits-onto zero n bytes l = absurd (omega (arith, l))
read_digits-onto (suc fuel) n bytes l = elim (Bool-cases (ltb n 10)) [
  | inl e ↦ ground (arith, e)
  | inr e ↦
      let large : 10 ≤ n = ground (arith, e) in
      let less : n / 10 < fuel = omega (arith, l, large) in
      let again = read_digits-onto fuel (n / 10) ((48 + n % 10) ∷ bytes) less in
      let small : n % 10 < 10 = omega arith in
      let digit : is_digit (48 + n % 10) ≡ true = ground (arith, small) in
      let whole : n / 10 * 10 + (48 + n % 10 - 48) ≡ n = omega arith in
      rw e (again ∙ rw (read_digits, digit, whole) refl)
]

all_digits :
    (fuel n : ℕ) (bytes : List ℕ)
    → all is_digit bytes ≡ true
    → all is_digit (digits_onto fuel n bytes) ≡ true
unfolding digits_onto
all_digits zero n bytes e = e
all_digits (suc fuel) n bytes e = ground (arith, all_digits fuel (n / 10) ((48 + n % 10) ∷ bytes))

-- The digits of a number begin with a digit.
starts_with_digit :
    (fuel n : ℕ) (bytes : List ℕ)
    → (b : ℕ) × (bs : List ℕ) × (digits_onto (suc fuel) n bytes ≡ b ∷ bs) × (is_digit b ≡ true)
unfolding digits_onto
starts_with_digit zero n bytes = elim (Bool-cases (ltb n 10)) [
  | inl e ↦ (48 + n, bytes, rw e refl, ground (arith, e))
  | inr e ↦ (48 + n % 10, bytes, rw e refl, ground arith)
]
starts_with_digit (suc fuel) n bytes = elim (Bool-cases (ltb n 10)) [
  | inl e ↦ (48 + n, bytes, rw e refl, ground (arith, e))
  | inr e ↦
      let (b, bs, f, g) = starts_with_digit fuel (n / 10) ((48 + n % 10) ∷ bytes) in
      (b, bs, rw e f, g)
]

split_at-digits :
    (marker : ℕ) (xs rest : List ℕ)
    → 57 < marker
    → all is_digit xs ≡ true
    → split_at marker (xs ++ marker ∷ rest) ≡ some (xs, rest)
unfolding split_at
split_at-digits marker [] rest l e = ground arith
split_at-digits marker (x ∷ xs) rest l e =
    let apart : (x == marker) ≡ false = ground (arith, l, e) in
    let again = split_at-digits marker xs rest l (ground (arith, e)) in rw (apart, again) refl

take-append : (s rest : List ℕ) → take (length s) (s ++ rest) ≡ s
unfolding take
take-append [] rest = refl
take-append (x ∷ s) rest = ap (λ t. x ∷ t) (take-append s rest)

drop-append : (s rest : List ℕ) → drop (length s) (s ++ rest) ≡ rest
drop-append [] rest = refl
drop-append (x ∷ s) rest = drop-append s rest

read_digits-decimal : (n : ℕ) → read_digits 0 (decimal n) ≡ n
unfolding decimal read_digits
read_digits-decimal n = read_digits-onto (suc n) n [] (omega arith)

digits-decimal : (n : ℕ) → all is_digit (decimal n) ≡ true
unfolding decimal
digits-decimal n = all_digits (suc n) n [] refl

starts-decimal : (n : ℕ) → (b : ℕ) × (bs : List ℕ) × (decimal n ≡ b ∷ bs) × (is_digit b ≡ true)
unfolding decimal
starts-decimal n = starts_with_digit n n []

parse_natural-decimal : (n : ℕ) → parse_natural (decimal n) ≡ some n
unfolding parse_natural
parse_natural-decimal n =
    let (b, bs, f, g) = starts-decimal n in
    let read : read_digits 0 (b ∷ bs) ≡ n = ap (read_digits 0) (sym f) ∙ read_digits-decimal n in
    rw (f, g) (ap some read)

parse_int-decimal : (n : ℕ) → parse_int (decimal n) ≡ some (pos n)
unfolding parse_int
parse_int-decimal n =
    let (b, bs, f, g) = starts-decimal n in
    let whole : parse_natural (b ∷ bs) ≡ some n =
      ap parse_natural (sym f) ∙ parse_natural-decimal n in
    rw f ground (arith, g, whole)

parse_int-show_integer : (z : ℤ) → parse_int (show_integer z) ≡ some z
unfolding show_integer parse_int
parse_int-show_integer (pos n) = parse_int-decimal n
parse_int-show_integer (negsuc n) = rw (parse_natural-decimal (suc n)) refl

split_at-show_integer :
    (z : ℤ) (rest : List ℕ)
    → split_at 101 (show_integer z ++ 101 ∷ rest) ≡ some (show_integer z, rest)
unfolding show_integer split_at
split_at-show_integer (pos n) rest =
    split_at-digits 101 (decimal n) rest (omega arith) (digits-decimal n)
split_at-show_integer (negsuc n) rest =
    rw (split_at-digits 101 (decimal (suc n)) rest (omega arith) (digits-decimal (suc n))) refl

pub decode_integer-show_integer :
    (z : ℤ) (rest : List ℕ) → decode_integer (show_integer z ++ 101 ∷ rest) ≡ some (integer z, rest)
unfolding decode_integer as_integer
decode_integer-show_integer z rest =
    rw (decode_integer, split_at-show_integer z rest, parse_int-show_integer z) refl

pub decode_text-encode_text :
    (s rest : List ℕ) → decode_text (encode_text s ++ rest) ≡ some (s, rest)
unfolding decode_text encode_text as_text
decode_text-encode_text s rest =
    let split =
      split_at-digits 58 (decimal (length s)) (s ++ rest) (omega arith)
        (digits-decimal (length s)) in
    rw
      (
        append_assoc (decimal (length s)) (58 ∷ s) rest,
        decode_text,
        split,
        parse_int-decimal (length s),
        take-append s rest,
        drop-append s rest,
      )
      refl

pub encode_text_starts :
    (s rest : List ℕ)
    → (b : ℕ) × (bs : List ℕ) × (encode_text s ++ rest ≡ b ∷ bs) × (is_digit b ≡ true)
unfolding encode_text
encode_text_starts s rest =
    let (b, bs, f, g) = starts-decimal (length s) in (b, (bs ++ 58 ∷ s) ++ rest, rw f refl, g)
