-- ===== src/Media/Tests.antt =====
-- An offer to rtpengine, and the theorems there.
use callio.Prelude.{◌≡◌, refl, none, some, [], ◌∷◌, ◌++◌}
use callio.Media.Bencode.{
  Value, decimal, decode, decode_integer, decode_message, decode_text, digits_onto, encode,
  encode_text, insert_entry, join_entries, parse_int, parse_natural, read_digits, show_integer,
  sort_entries, split_at, take, add_entry, add_item, as_dict, as_integer, as_list, as_text,
  as_value, comes_before, dict, empty, entry, integer, item, list, negsuc, no_more, pos, text,
}
use callio.Media.Bencode.RoundTrip.{is_plain, decode_message-encode}

coding : Unit {0}
unfolding decimal decode decode_integer decode_message decode_text digits_onto encode encode_text
    insert_entry join_entries parse_int parse_natural read_digits show_integer sort_entries split_at
    take add_entry add_item as_dict as_integer as_list as_text as_value comes_before is_plain
coding = tt

-- { flags: ['ICE', 12, -3], sdp: '' }, its keys and texts as bytes.
abbrev command : Value
command = dict (
    entry (102 ∷ 108 ∷ [])
      (list (
        item (text (73 ∷ 67 ∷ 69 ∷ []))
          (item (integer (pos 12)) (item (integer (negsuc 2)) empty))))
      (entry (115 ∷ 100 ∷ 112 ∷ []) (text []) no_more))

decode_message-encode_example : decode_message (encode command ++ 32 ∷ []) ≡ some (command, 32 ∷ [])
unfolding coding
decode_message-encode_example = decode_message-encode command (32 ∷ []) refl

-- d2:fl2:ok, cut off before the end mark
cut_off : decode_message (100 ∷ 50 ∷ 58 ∷ 102 ∷ 108 ∷ 50 ∷ 58 ∷ 111 ∷ 107 ∷ []) ≡ none
unfolding coding
cut_off = refl
