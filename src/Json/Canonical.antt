-- ===== src/Json/Canonical.antt =====
-- The text of a value of `serializePayload`, and the order in which its objects list their keys.
use atel_sdk.Base.{String, ◌≡◌, ◌≢◌, refl, sym, ap, ◌∙◌, List, [], ◌∷◌, map, arith}
use atel_sdk.Json.{
  Value, Items, Fields, arr, obj, nil, cons, end, field, insert_by_key, sort_by_key,
  sorted_stringify, sorted_items, sorted_fields, serialize_payload, wrap, pair_text,
}
use atel_sdk.Json.Text.{join}
use atel_sdk.Json.Order.{str_ltb_asymm, str_ltb_trans, str_ltb_total}
use atel_sdk.Json.Agree.{serialize_payload-eq-sorted_stringify}

-- Equal up to the order of keys, at any depth. An object has no key twice, so only entries with
-- different keys change places.
mutual
  pub data SameValue : Value → Value → Type 0 where
    same : (v : Value) → SameValue v v
    arrays : {xs ys : Items} → SameItems xs ys → SameValue (arr xs) (arr ys)
    objects : {fs gs : Fields} → SameFields fs gs → SameValue (obj fs) (obj gs)

  pub data SameItems : Items → Items → Type 0 where
    none_left : SameItems nil nil
    both :
        {v w : Value} {xs ys : Items}
        → SameValue v w
        → SameItems xs ys
        → SameItems (cons v xs) (cons w ys)

  pub data SameFields : Fields → Fields → Type 0 where
    finished : SameFields end end
    keep :
        (k : String) {v w : Value} {fs gs : Fields}
        → SameValue v w
        → SameFields fs gs
        → SameFields (field k v fs) (field k w gs)
    swap :
        (k j : String) (v w : Value) (fs : Fields)
        → k ≢ j
        → SameFields (field k v (field j w fs)) (field j w (field k v fs))
    step : {fs gs hs : Fields} → SameFields fs gs → SameFields gs hs → SameFields fs hs

module _ {ℓ} {A : Type ℓ} where
  insert_by_key_comm :
      (k j : String) (a b : A) (l : List (String × A))
      → k ≢ j
      → insert_by_key k a (insert_by_key j b l) ≡ insert_by_key j b (insert_by_key k a l)
  unfolding insert_by_key
  insert_by_key_comm k j a b [] ne =
      ground (arith, str_ltb_asymm j k, str_ltb_asymm k j, str_ltb_total j k)
  insert_by_key_comm k j a b ((i, c) ∷ l) ne = ground (
    arith,
    insert_by_key_comm k j a b l,
    str_ltb_asymm j k,
    str_ltb_asymm k j,
    str_ltb_total j k,
    str_ltb_trans i j k,
    str_ltb_trans i k j,
    str_ltb_total i j,
    str_ltb_total i k,
    str_ltb_trans j i k,
    str_ltb_trans k i j,
  )

mutual
  unfolding sorted_stringify sorted_items sorted_fields sort_by_key

  text_of_same : {v w : Value} → SameValue v w → sorted_stringify v ≡ sorted_stringify w
  text_of_same (same v) = refl
  text_of_same (arrays s) = ap (λ l. wrap "[" (join "," l) "]") (items_of_same s)
  text_of_same (objects s) = ap (λ l. wrap "{" (join "," (map pair_text l)) "}") (fields_of_same s)

  items_of_same : {xs ys : Items} → SameItems xs ys → sorted_items xs ≡ sorted_items ys
  items_of_same none_left = refl
  items_of_same (both s t) = cc (text_of_same s, items_of_same t)

  fields_of_same :
      {fs gs : Fields}
      → SameFields fs gs
      → sort_by_key (sorted_fields fs) ≡ sort_by_key (sorted_fields gs)
  fields_of_same finished = refl
  fields_of_same (keep k s t) = cc (text_of_same s, fields_of_same t)
  fields_of_same (swap k j v w fs ne) =
      insert_by_key_comm k j (sorted_stringify v) (sorted_stringify w)
        (sort_by_key (sorted_fields fs)) ne
  fields_of_same (step s t) = fields_of_same s ∙ fields_of_same t

-- Two values that differ only in the order of keys, at any depth, have the same text, so the same
-- signature and the same hash.
pub serialize_payload-same :
    (v w : Value) → SameValue v w → serialize_payload v ≡ serialize_payload w
serialize_payload-same v w s =
    serialize_payload-eq-sorted_stringify v
    ∙ text_of_same s
    ∙ sym (serialize_payload-eq-sorted_stringify w)
