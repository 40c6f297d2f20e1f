-- ===== src/Tests/Snapshots.antt =====
-- A snapshot of two records, written, read back, and cut short.
use qkt_data_hub.Prelude.{
  ℕ, ◌/◌, ◌*◌, ◌≡◌, refl, sym, ap, ◌-◌, Option, none, some, Result, ok, err, store_error,
  struct_error, ◌>>=◌, List, [], ◌∷◌, ◌++◌, map, All, length, take, Bool-cases, inl, inr, ok_inj,
  if◌then◌else◌, arith,
}
use qkt_data_hub.Prelude.Int.{pos}
use mathlib.Core.Path.{subst}
use qkt_data_hub.Prelude.Order.{nat_ord, pair_ord}
use qkt_data_hub.Prelude.Text.{Text, codes, text_eq, text_eq_iff, text_ord, text_lt}
use qkt_data_hub.Prelude.Dict.{lookup}
use qkt_data_hub.Prelude.Sort.{sort_by}
use qkt_data_hub.Prelude.Sets.{sorted_set}
use qkt_data_hub.Record.{Record, text, int, null, sort_key}
use qkt_data_hub.Record.Json.{show_ℕ}
use qkt_data_hub.Record.Stamp.{with_id}
use qkt_data_hub.Derive.Decimals.{DecimalContext}
use qkt_data_hub.Derive.Calls.{int_value}
use qkt_data_hub.Snapshot.Utf8.{Bytes, encode_text}
use qkt_data_hub.Snapshot.Encode.{
  encode, storable_fields, null_sentinel, ◌<+>◌, write_header, pack_str, pack_fields,
  field_type_code, pack_dictionary, dictionaries, pack_strs, write_columns, write_column,
  map_result, availability_ordinal, encode_field_value, encode_typed, index_from, pack_column,
  write_fields,
}
use qkt_data_hub.Snapshot.Words.{pack, int64}
use qkt_data_hub.Schema.{FieldSpec, timestamp_type, forbid, validate_field}
use qkt_data_hub.Snapshot.Rows.{decode_field_value}
use qkt_data_hub.Record.Checks.{post_init, IsValid}
use qkt_data_hub.Record.Names.{matches_dataset, domain, elem, matches_scope, matches_field_name}
use qkt_data_hub.Snapshot.Rows.{decode}
use qkt_data_hub.Snapshot.RoundTrip.{decode-encode, header_for}
use qkt_data_hub.Snapshot.Refused.{decode-truncated}
use qkt_data_hub.Snapshot.Restores.Rows.{ScalesBack, absent, a_number}
use qkt_data_hub.Snapshot.Restores.Records.{stored, IsFieldName, IsStorable}
use qkt_data_hub.Tests.Samples.{counting, plain, fact}
use qkt_data_hub.Tests.Pipeline.{growth, spec_of}

unfoldable pub strict : Text → Option Text
strict s = if text_eq s (show_ℕ (int_value 0 s)) then some s else none

-- whole numbers, canonical without a leading zero
abbrev pub whole_numbers : DecimalContext
whole_numbers = record counting { canonical = strict }

strict-show_ℕ : (written s : Text) → strict written ≡ some s → show_ℕ (int_value 0 s) ≡ s
unfolding strict
strict-show_ℕ written s h = elim (Bool-cases (text_eq written (show_ℕ (int_value 0 written)))) [
  | inr bad ↦ cc (rw bad at h)
  | inl good ↦
      let shown = (text_eq_iff written (show_ℕ (int_value 0 written))).0 good in
      let kept : some written ≡ some s = rw good at h in
      let same : written ≡ s = cc in subst (λ t. show_ℕ (int_value 0 t) ≡ t) same (sym shown)
]

pub whole_numbers-ScalesBack : ScalesBack whole_numbers
whole_numbers-ScalesBack written s n h e =
    let back : int_value 0 s * 100_000_000 / 100_000_000 ≡ int_value 0 s = omega arith in
    rw (← ok_inj e, back) (ap ok (strict-show_ℕ written s h))

-- a digest and a schema hash of 32 bytes
abbrev pub blank : Bytes
blank =
    0 ∷ 0 ∷ 0 ∷ 0 ∷ 0 ∷ 0 ∷ 0 ∷ 0 ∷ 0 ∷ 0 ∷ 0 ∷ 0 ∷ 0 ∷ 0 ∷ 0 ∷ 0 ∷ 0 ∷ 0 ∷ 0 ∷ 0 ∷ 0 ∷ 0 ∷ 0 ∷ 0
    ∷ 0 ∷ 0 ∷ 0 ∷ 0 ∷ 0 ∷ 0 ∷ 0 ∷ 0 ∷ []

abbrev pub blank_digest : Bytes → Bytes
blank_digest bytes = blank

abbrev observation : ℕ → Text → Record
observation known_at value = record (fact (codes "a") 1 known_at 1_600_000_000_000 value) {
  dataset = codes "rates.x";
  fields = (codes "x", text value) ∷ [];
}

abbrev observations : List Record
observations =
    observation 1_600_000_000_200 (codes "7") ∷ observation 1_600_000_000_100 (codes "3") ∷ []

abbrev pub bytes_of : Result Bytes → Bytes
bytes_of (err e) = []
bytes_of (ok bytes) = bytes

abbrev written : Bytes
written = bytes_of (encode whole_numbers blank_digest blank growth observations)

observations-written : encode whole_numbers blank_digest blank growth observations ≡ ok written
unfolding encode text_eq ◌<+>◌ write_header pack pack_str encode_text storable_fields pack_fields
    field_type_code pack_dictionary dictionaries sorted_set text_lt pack_strs write_columns
    write_column map_result lookup sort_by show_ℕ sort_key availability_ordinal encode_field_value
    index_from pack_column write_fields encode_typed int_value
observations-written = refl

pub named : All (λ f. IsFieldName f.name) (storable_fields growth)
unfolding storable_fields matches_field_name elem text_eq
named = ((refl, refl), ((refl, refl), tt))

observation-IsStorable :
    (known_at : ℕ) (value : Text)
    → IsValid (observation known_at value)
    → strict value ≡ some value
    → IsStorable whole_numbers
        (codes "rates.x")
        (storable_fields growth)
        (observation known_at value)
unfolding storable_fields lookup text_eq
observation-IsStorable known_at value valid canonical = record {
  valid = valid;
  of_dataset = refl;
  kept = (a_number value canonical, (absent, tt));
}

first-IsStorable :
    IsStorable whole_numbers
      (codes "rates.x")
      (storable_fields growth)
      (observation 1_600_000_000_200 (codes "7"))
unfolding post_init matches_dataset domain elem text_eq matches_scope matches_field_name strict
    show_ℕ int_value
first-IsStorable = observation-IsStorable 1_600_000_000_200 (codes "7") refl refl

second-IsStorable :
    IsStorable whole_numbers
      (codes "rates.x")
      (storable_fields growth)
      (observation 1_600_000_000_100 (codes "3"))
unfolding post_init matches_dataset domain elem text_eq matches_scope matches_field_name strict
    show_ℕ int_value
second-IsStorable = observation-IsStorable 1_600_000_000_100 (codes "3") refl refl

decode-encode_example :
    decode whole_numbers plain blank_digest written
    ≡ ok (
      header_for whole_numbers plain blank_digest blank growth (sort_by sort_key observations),
      map (λ r. with_id plain (stored (storable_fields growth) r)) (sort_by sort_key observations),
    )
decode-encode_example =
    decode-encode whole_numbers plain blank_digest blank growth observations
      whole_numbers-ScalesBack (λ b. refl) refl named (first-IsStorable, (second-IsStorable, tt))
      observations-written

-- all but the last byte
abbrev cut_short : Bytes
cut_short = take (length written - 1) written

shortened : written ≡ cut_short ++ (0 ∷ [])
unfolding encode text_eq ◌<+>◌ write_header pack pack_str encode_text storable_fields pack_fields
    field_type_code pack_dictionary dictionaries sorted_set text_lt pack_strs write_columns
    write_column map_result lookup sort_by show_ℕ sort_key availability_ordinal encode_field_value
    index_from pack_column write_fields encode_typed int_value
shortened = refl

decode-truncated_example : decode whole_numbers plain blank_digest cut_short ≡ err store_error
decode-truncated_example =
    decode-truncated whole_numbers plain blank_digest blank growth observations (λ b. refl) refl
      observations-written cut_short [] 0 shortened

-- A timestamp beyond 64 bits passes the schema, and then no snapshot can hold it.
dated : FieldSpec
dated = record (spec_of (codes "t") forbid []) { type = timestamp_type }

late-accepted :
    validate_field counting dated (int (pos 9_223_372_036_854_775_808))
    ≡ ok (int (pos 9_223_372_036_854_775_808))
unfolding validate_field dated
late-accepted = refl

late-refused : pack int64 (pos 9_223_372_036_854_775_808) ≡ err struct_error
unfolding pack
late-refused = refl

-- One that is the null sentinel comes back as null.
sentinel-lost :
    (encode_field_value counting dated (some (int null_sentinel)) >>= λ n.
    decode_field_value counting 8 timestamp_type n)
    ≡ ok null
unfolding encode_field_value encode_typed decode_field_value dated
sentinel-lost = refl
