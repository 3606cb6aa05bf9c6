-- ===== src/Media/Bencode/RoundTrip.antt =====
-- `bdecode` reads what `bencode` wrote: infra/media/RtpEngineClient.js.
use callio.Prelude.{
  ℕ, zero, suc, ◌+◌, ◌≤◌, ◌≡◌, refl, sym, ap, ◌∙◌, Bool, true, false, ◌&&◌, some, List, [], ◌∷◌,
  ◌++◌, ◌==◌, ltb, length, arith, append_assoc, length-append,
}
use callio.Media.Bencode.{
  ℤ, pos, negsuc, Value, Values, Entries, integer, text, list, dict, empty, item, no_more, entry,
  add_entry, add_item, as_dict, as_list, as_value, comes_before, decode, decode_values,
  decode_entries, decode_message, decode_text, encode, encode_values, encode_entries, encode_text,
  insert_entry, join_entries, show_integer, sort_entries,
}
use callio.Media.Bencode.Decimal.{
  decode_integer-show_integer, decode_text-encode_text, encode_text_starts,
}

-- The keys of a dictionary are in their order.
abbrev pub are_in_order : Entries → Bool
are_in_order no_more = true
are_in_order (entry k v no_more) = true
are_in_order (entry k v (entry l w es)) = comes_before k l && are_in_order (entry l w es)

-- JavaScript prints an integer in digits if it is below 10 ^ 21 in size, and with an exponent from there on.
abbrev pub is_short : ℤ → Bool
is_short (pos n) = ltb n 1000000000000000000000
is_short (negsuc n) = ltb (suc n) 1000000000000000000000

-- The keys are in order in each dictionary of a value, and each of its integers is printed in digits.
unfoldable mutual
  pub is_plain : Value → Bool
  is_plain (integer z) = is_short z
  is_plain (text s) = true
  is_plain (list vs) = all_plain vs
  is_plain (dict es) = are_in_order es && entries_plain es

  pub all_plain : Values → Bool
  all_plain empty = true
  all_plain (item v vs) = is_plain v && all_plain vs

  pub entries_plain : Entries → Bool
  entries_plain no_more = true
  entries_plain (entry k v es) = is_plain v && entries_plain es

-- The fuel for a value.
unfoldable mutual
  pub need : Value → ℕ
  need (integer z) = 1
  need (text s) = 1
  need (list vs) = suc (need_values vs)
  need (dict es) = suc (need_entries es)

  pub need_values : Values → ℕ
  need_values empty = 1
  need_values (item v vs) = suc (need v + need_values vs)

  pub need_entries : Entries → ℕ
  need_entries no_more = 1
  need_entries (entry k v es) = suc (need v + need_entries es)

sorted_already :
    (es : Entries) → are_in_order es ≡ true → sort_entries (encode_entries es) ≡ encode_entries es
unfolding sort_entries insert_entry encode
sorted_already no_more e = refl
sorted_already (entry k v no_more) e = refl
sorted_already (entry k v (entry l w es)) e =
    let rest = sorted_already (entry l w es) (ground (arith, e)) in
    let first : comes_before k l ≡ true = ground (arith, e) in rw (rest, first) refl

-- No value begins with the end mark.
encode_starts :
    (v : Value) (rest : List ℕ)
    → (b : ℕ) × (bs : List ℕ) × (encode v ++ rest ≡ b ∷ bs) × ((b == 101) ≡ false)
unfolding encode
encode_starts (integer z) rest = (105, _, refl, refl)
encode_starts (list vs) rest = (108, _, refl, refl)
encode_starts (dict es) rest = (100, _, refl, refl)
encode_starts (text s) rest =
    let (b, bs, f, g) = encode_text_starts s rest in (b, bs, f, ground (arith, g))

decode_text-value :
    (n : ℕ) (s rest : List ℕ) → decode (suc n) (encode_text s ++ rest) ≡ some (text s, rest)
unfolding decode as_value
decode_text-value n s rest =
    let (b, bs, f, g) = encode_text_starts s rest in
    let read : decode_text (b ∷ bs) ≡ some (s, rest) =
      ap decode_text (sym f) ∙ decode_text-encode_text s rest in
    let a1 : (b == 105) ≡ false = ground (arith, g) in
    let a2 : (b == 108) ≡ false = ground (arith, g) in
    let a3 : (b == 100) ≡ false = ground (arith, g) in rw (f, a1, a2, a3, read) refl

-- One more item, read before the others.
values_step :
    (n : ℕ) (v : Value) (vs : Values) (tail rest : List ℕ)
    → decode n (encode v ++ tail) ≡ some (v, tail)
    → decode_values n tail ≡ some (vs, rest)
    → decode_values (suc n) (encode v ++ tail) ≡ some (item v vs, rest)
unfolding decode add_item
values_step n v vs tail rest e f =
    let (b, bs, g, h) = encode_starts v tail in
    let read : decode n (b ∷ bs) ≡ some (v, tail) = ap (decode n) (sym g) ∙ e in
    rw (g, h, read, f) refl

entries_step :
    (n : ℕ) (key : List ℕ) (v : Value) (es : Entries) (tail rest : List ℕ)
    → decode n (encode v ++ tail) ≡ some (v, tail)
    → decode_entries n tail ≡ some (es, rest)
    → decode_entries (suc n) (encode_text key ++ (encode v ++ tail)) ≡ some (entry key v es, rest)
unfolding decode add_entry
entries_step n key v es tail rest e f =
    let (b, bs, g, h) = encode_text_starts key (encode v ++ tail) in
    let apart : (b == 101) ≡ false = ground (arith, h) in
    let read : decode_text (b ∷ bs) ≡ some (key, encode v ++ tail) =
      ap decode_text (sym g) ∙ decode_text-encode_text key (encode v ++ tail) in
    rw (g, apart, read, e, f) refl

mutual
  unfolding decode encode need is_plain join_entries as_list as_dict

  pub decode-encode :
      (n : ℕ) (v : Value) (rest : List ℕ)
      → need v ≤ n
      → is_plain v ≡ true
      → decode n (encode v ++ rest) ≡ some (v, rest)
  decode-encode zero (integer z) rest l o = absurd (omega (arith, l))
  decode-encode zero (text s) rest l o = absurd (omega (arith, l))
  decode-encode zero (list vs) rest l o = absurd (omega (arith, l))
  decode-encode zero (dict es) rest l o = absurd (omega (arith, l))
  decode-encode (suc n) (integer z) rest l o =
      rw (append_assoc (show_integer z) (101 ∷ []) rest) (decode_integer-show_integer z rest)
  decode-encode (suc n) (text s) rest l o = decode_text-value n s rest
  decode-encode (suc n) (list vs) rest l o =
      let read = decode_values-encode n vs rest (omega (arith, l)) o in
      rw (append_assoc (encode_values vs) (101 ∷ []) rest, read) refl
  decode-encode (suc n) (dict es) rest l o =
      let read = decode_entries-encode n es rest (omega (arith, l)) (ground (arith, o)) in
      let sorted = sorted_already es (ground (arith, o)) in
      rw (sorted, append_assoc (join_entries (encode_entries es)) (101 ∷ []) rest, read) refl

  decode_values-encode :
      (n : ℕ) (vs : Values) (rest : List ℕ)
      → need_values vs ≤ n
      → all_plain vs ≡ true
      → decode_values n (encode_values vs ++ 101 ∷ rest) ≡ some (vs, rest)
  decode_values-encode zero empty rest l o = absurd (omega (arith, l))
  decode_values-encode zero (item v vs) rest l o = absurd (omega (arith, l))
  decode_values-encode (suc n) empty rest l o = refl
  decode_values-encode (suc n) (item v vs) rest l o =
      let tail = encode_values vs ++ 101 ∷ rest in
      rw (append_assoc (encode v) (encode_values vs) (101 ∷ rest)) (
        values_step n v vs tail rest (decode-encode n v tail (omega (arith, l)) (ground (arith, o)))
          (decode_values-encode n vs rest (omega (arith, l)) (ground (arith, o))))

  decode_entries-encode :
      (n : ℕ) (es : Entries) (rest : List ℕ)
      → need_entries es ≤ n
      → entries_plain es ≡ true
      → decode_entries n (join_entries (encode_entries es) ++ 101 ∷ rest) ≡ some (es, rest)
  decode_entries-encode zero no_more rest l o = absurd (omega (arith, l))
  decode_entries-encode zero (entry k v es) rest l o = absurd (omega (arith, l))
  decode_entries-encode (suc n) no_more rest l o = refl
  decode_entries-encode (suc n) (entry k v es) rest l o =
      let joined = join_entries (encode_entries es) in
      let tail = joined ++ 101 ∷ rest in
      rw
        (
          append_assoc (encode_text k) (encode v ++ joined) (101 ∷ rest),
          append_assoc (encode v) joined (101 ∷ rest),
        )
        (entries_step n k v es tail rest
          (decode-encode n v tail (omega (arith, l)) (ground (arith, o)))
          (decode_entries-encode n es rest (omega (arith, l)) (ground (arith, o))))

text_not_empty : (s : List ℕ) → 1 ≤ length (encode_text s)
text_not_empty s =
    let (b, bs, f, g) = encode_text_starts s [] in
    let long : length (encode_text s) + 0 ≡ suc (length bs) =
      sym (length-append (encode_text s) []) ∙ ap length f in
    omega (arith, long)

-- Two units of fuel for each byte are enough.
mutual
  unfolding encode need is_plain join_entries

  need-encode :
      (v : Value) → is_plain v ≡ true → suc (need v) ≤ length (encode v) + length (encode v)
  need-encode (integer z) o = omega (arith, length-append (show_integer z) (101 ∷ []))
  need-encode (text s) o = omega (arith, text_not_empty s)
  need-encode (list vs) o =
      omega (arith, need-encode_values vs o, length-append (encode_values vs) (101 ∷ []))
  need-encode (dict es) o =
      let enough = need-encode_entries es (ground (arith, o)) in
      let sorted = sorted_already es (ground (arith, o)) in
      rw sorted omega (arith, enough, length-append (join_entries (encode_entries es)) (101 ∷ []))

  need-encode_values :
      (vs : Values)
      → all_plain vs ≡ true
      → need_values vs ≤ suc (length (encode_values vs) + length (encode_values vs))
  need-encode_values empty o = omega arith
  need-encode_values (item v vs) o = omega (
    arith,
    need-encode v (ground (arith, o)),
    need-encode_values vs (ground (arith, o)),
    length-append (encode v) (encode_values vs),
  )

  need-encode_entries :
      (es : Entries)
      → entries_plain es ≡ true
      → need_entries es
        ≤ suc
            (length (join_entries (encode_entries es)) + length (join_entries (encode_entries es)))
  need-encode_entries no_more o = omega arith
  need-encode_entries (entry k v es) o = omega (
    arith,
    need-encode v (ground (arith, o)),
    need-encode_entries es (ground (arith, o)),
    length-append (encode_text k) (encode v ++ join_entries (encode_entries es)),
    length-append (encode v) (join_entries (encode_entries es)),
  )

-- A value whose integers are below 10 ^ 21 in size, and whose dictionaries list their entries in the order of
-- the keys, written by `bencode` before any other bytes, is read back by `bdecode`, which stops right after it.
pub decode_message-encode :
    (v : Value) (rest : List ℕ)
    → is_plain v ≡ true
    → decode_message (encode v ++ rest) ≡ some (v, rest)
unfolding decode_message
decode_message-encode v rest o =
    let fuel = length (encode v ++ rest) + length (encode v ++ rest) in
    let enough : need v ≤ fuel = omega (arith, need-encode v o, length-append (encode v) rest) in
    decode-encode fuel v rest enough o
