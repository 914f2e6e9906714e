-- ===== src/Json/Agree.antt =====
-- The two deterministic serialisers of src/identity/index.ts and src/trace/index.ts, side by side.
use atel_sdk.Base.{String, ◌≡◌, refl, ap, map, arith}
use atel_sdk.Json.{
  Value, Items, Fields, null, bool, num, str, arr, obj, nil, cons, end, field, insert_by_key,
  sort_by_key, stringify, stringify_items, stringify_fields, sorted_stringify, sorted_items,
  sorted_fields, insert_field, sort_keys, sort_items, sort_fields, serialize_payload, wrap,
  pair_text,
}
use atel_sdk.Json.Text.{join}

stringify_fields-insert_field :
    (k : String) (v : Value) (fs : Fields)
    → stringify_fields (insert_field k v fs) ≡ insert_by_key k (stringify v) (stringify_fields fs)
unfolding stringify_fields insert_field insert_by_key
stringify_fields-insert_field k v end = refl
stringify_fields-insert_field k v (field j w fs) =
    ground (arith, stringify_fields-insert_field k v fs)

mutual
  unfolding stringify stringify_items stringify_fields sorted_stringify sorted_items sorted_fields
      sort_keys sort_items sort_fields sort_by_key

  agree : (v : Value) → stringify (sort_keys v) ≡ sorted_stringify v
  agree null = refl
  agree (bool b) = refl
  agree (num n) = refl
  agree (str s) = refl
  agree (arr xs) = ap (λ l. wrap "[" (join "," l) "]") (agree_items xs)
  agree (obj fs) = ap (λ l. wrap "{" (join "," (map pair_text l)) "}") (agree_fields fs)

  agree_items : (xs : Items) → stringify_items (sort_items xs) ≡ sorted_items xs
  agree_items nil = refl
  agree_items (cons v xs) = cc (agree v, agree_items xs)

  agree_fields : (fs : Fields) → stringify_fields (sort_fields fs) ≡ sort_by_key (sorted_fields fs)
  agree_fields end = refl
  agree_fields (field k v fs) =
      cc (stringify_fields-insert_field k (sort_keys v) (sort_fields fs), agree v, agree_fields fs)

-- `serializePayload`, which sorts keys by a replacer, and `sortedStringify`, which sorts them as it
-- writes, give the same text for every value.
pub serialize_payload-eq-sorted_stringify : (v : Value) → serialize_payload v ≡ sorted_stringify v
unfolding serialize_payload
serialize_payload-eq-sorted_stringify v = agree v
