-- ===== src/Media/Bencode.antt =====
-- The messages of rtpengine: `bencode` and `bdecode` of infra/media/RtpEngineClient.js. Texts are lists of
-- bytes, a fraction is no value, and integers are printed as JavaScript prints those below 10 ^ 21 in size. A dictionary is its entries, without those that are null, and its keys are
-- texts; decoded, it has the entries in the order of the message. Where the decoder loses its position, which
-- becomes NaN, or moves it back, the model returns none; fuel bounds the nesting and the number of entries.
pub mod Decimal
pub mod RoundTrip
use callio.Prelude.{
  ℕ, zero, suc, ◌+◌, ◌-◌, ◌*◌, ◌/◌, ◌%◌, Bool, true, false, ◌&&◌, ◌||◌, Option, none, some, List,
  [], ◌∷◌, ◌++◌, ◌==◌, ltb, leb, length, drop, if◌then◌else◌,
}

pub data ℤ : Type 0 where
  pos negsuc : ℕ → ℤ

mutual
  pub data Value : Type 0 where
    integer : ℤ → Value
    text : List ℕ → Value
    list : Values → Value
    dict : Entries → Value

  pub data Values : Type 0 where
    empty : Values
    item : Value → Values → Values

  pub data Entries : Type 0 where
    no_more : Entries
    entry : List ℕ → Value → Entries → Entries

-- The decimal digits of a number, before some bytes.
unfoldable pub digits_onto : ℕ → ℕ → List ℕ → List ℕ
digits_onto zero n bytes = bytes
digits_onto (suc fuel) n bytes =
    let rest = digits_onto fuel (n / 10) ((48 + n % 10) ∷ bytes) in
    if ltb n 10 then (48 + n) ∷ bytes else rest

unfoldable pub decimal : ℕ → List ℕ
decimal n = digits_onto (suc n) n []

unfoldable pub show_integer : ℤ → List ℕ
show_integer (pos n) = decimal n
show_integer (negsuc n) = 45 ∷ decimal (suc n)

unfoldable pub encode_text : List ℕ → List ℕ
encode_text s = decimal (length s) ++ 58 ∷ s

-- The order of the keys, byte by byte.
unfoldable pub comes_before : List ℕ → List ℕ → Bool
comes_before [] t = true
comes_before (a ∷ s) [] = false
comes_before (a ∷ s) (b ∷ t) = let rest = comes_before s t in ltb a b || (a == b && rest)

unfoldable pub insert_entry : (List ℕ × List ℕ) → List (List ℕ × List ℕ) → List (List ℕ × List ℕ)
insert_entry e [] = e ∷ []
insert_entry e (x ∷ xs) = if comes_before e.0 x.0 then e ∷ x ∷ xs else x ∷ insert_entry e xs

unfoldable pub sort_entries : List (List ℕ × List ℕ) → List (List ℕ × List ℕ)
sort_entries [] = []
sort_entries (e ∷ es) = insert_entry e (sort_entries es)

unfoldable pub join_entries : List (List ℕ × List ℕ) → List ℕ
join_entries [] = []
join_entries (e ∷ es) = encode_text e.0 ++ (e.1 ++ join_entries es)

unfoldable mutual
  pub encode : Value → List ℕ
  encode (integer z) = 105 ∷ (show_integer z ++ 101 ∷ [])
  encode (text s) = encode_text s
  encode (list vs) = 108 ∷ (encode_values vs ++ 101 ∷ [])
  encode (dict es) = 100 ∷ (join_entries (sort_entries (encode_entries es)) ++ 101 ∷ [])

  pub encode_values : Values → List ℕ
  encode_values empty = []
  encode_values (item v vs) = encode v ++ encode_values vs

  pub encode_entries : Entries → List (List ℕ × List ℕ)
  encode_entries no_more = []
  encode_entries (entry key v es) = (key, encode v) ∷ encode_entries es

abbrev pub is_digit : ℕ → Bool
is_digit b = leb 48 b && leb b 57

abbrev is_space : ℕ → Bool
is_space b = b == 32 || (leb 9 b && leb b 13)

-- The digits that a text begins with.
unfoldable pub read_digits : ℕ → List ℕ → ℕ
read_digits n [] = n
read_digits n (b ∷ bytes) =
    let rest = read_digits (n * 10 + (b - 48)) bytes in if is_digit b then rest else n

unfoldable pub parse_natural : List ℕ → Option ℕ
parse_natural [] = none
parse_natural (b ∷ bytes) = if is_digit b then some (read_digits 0 (b ∷ bytes)) else none

abbrev negated : Option ℕ → Option ℤ
negated none = none
negated (some zero) = some (pos zero)
negated (some (suc n)) = some (negsuc n)

abbrev counted : Option ℕ → Option ℤ
counted none = none
counted (some n) = some (pos n)

-- `parseInt` in base 10, none for NaN.
unfoldable pub parse_int : List ℕ → Option ℤ
parse_int [] = none
parse_int (b ∷ bytes) =
    let trimmed = parse_int bytes in
    if is_space b
    then trimmed
    else if b == 45
    then negated (parse_natural bytes)
    else if b == 43
    then counted (parse_natural bytes)
    else counted (parse_natural (b ∷ bytes))

-- The bytes before a marker, and those after it.
unfoldable pub split_at : ℕ → List ℕ → Option (List ℕ × List ℕ)
split_at marker [] = none
split_at marker (b ∷ bytes) =
    let rest = split_at marker bytes in
    if b == marker
    then some ([], bytes)
    else elim rest [ none ↦ none | some (before, after) ↦ some (b ∷ before, after) ]

unfoldable pub take : ℕ → List ℕ → List ℕ
take zero bytes = []
take (suc n) [] = []
take (suc n) (b ∷ bytes) = b ∷ take n bytes

unfoldable pub as_integer : Option ℤ → List ℕ → Option (Value × List ℕ)
as_integer none rest = none
as_integer (some z) rest = some (integer z, rest)

unfoldable pub decode_integer : List ℕ → Option (Value × List ℕ)
unfolding as_integer
decode_integer bytes = elim (split_at 101 bytes) [
  | none ↦ none
  | some (before, after) ↦ as_integer (parse_int before) after
]

-- A text that is cut short ends where the message does.
unfoldable pub as_text : Option ℤ → List ℕ → Option (List ℕ × List ℕ)
as_text (some (pos n)) rest = some (take n rest, drop n rest)
as_text _ rest = none

unfoldable pub decode_text : List ℕ → Option (List ℕ × List ℕ)
unfolding as_text
decode_text bytes = elim (split_at 58 bytes) [
  | none ↦ none
  | some (before, after) ↦ as_text (parse_int before) after
]

unfoldable pub as_value : Option (List ℕ × List ℕ) → Option (Value × List ℕ)
as_value none = none
as_value (some (s, rest)) = some (text s, rest)

unfoldable pub as_list : Option (Values × List ℕ) → Option (Value × List ℕ)
as_list none = none
as_list (some (vs, rest)) = some (list vs, rest)

unfoldable pub as_dict : Option (Entries × List ℕ) → Option (Value × List ℕ)
as_dict none = none
as_dict (some (es, rest)) = some (dict es, rest)

unfoldable pub add_item : Value → Option (Values × List ℕ) → Option (Values × List ℕ)
add_item v none = none
add_item v (some (vs, rest)) = some (item v vs, rest)

unfoldable pub add_entry : List ℕ → Value → Option (Entries × List ℕ) → Option (Entries × List ℕ)
add_entry key v none = none
add_entry key v (some (es, rest)) = some (entry key v es, rest)

unfoldable mutual
  unfolding as_value as_list as_dict add_item add_entry

  pub decode : ℕ → List ℕ → Option (Value × List ℕ)
  decode zero bytes = none
  decode (suc fuel) [] = none
  decode (suc fuel) (b ∷ bytes) =
      if b == 105
      then decode_integer bytes
      else if b == 108
      then as_list (decode_values fuel bytes)
      else if b == 100
      then as_dict (decode_entries fuel bytes)
      else as_value (decode_text (b ∷ bytes))

  pub decode_values : ℕ → List ℕ → Option (Values × List ℕ)
  decode_values zero bytes = none
  decode_values (suc fuel) [] = none
  decode_values (suc fuel) (b ∷ bytes) =
      if b == 101 then some (empty, bytes) else elim (decode fuel (b ∷ bytes)) [
        | none ↦ none
        | some (v, rest) ↦ add_item v (decode_values fuel rest)
      ]

  pub decode_entries : ℕ → List ℕ → Option (Entries × List ℕ)
  decode_entries zero bytes = none
  decode_entries (suc fuel) [] = none
  decode_entries (suc fuel) (b ∷ bytes) =
      if b == 101 then some (no_more, bytes) else elim (decode_text (b ∷ bytes)) [
        | none ↦ none
        | some (key, after) ↦ elim (decode fuel after) [
          | none ↦ none
          | some (v, rest) ↦ add_entry key v (decode_entries fuel rest)
        ]
      ]

-- `bdecode` of a message, with fuel for every value that fits in it.
unfoldable pub decode_message : List ℕ → Option (Value × List ℕ)
decode_message bytes = decode (length bytes + length bytes) bytes
