-- ===== src/Json.antt =====
-- JSON values and their texts: `serializePayload` of src/identity/index.ts, and `sortedStringify` of
-- src/trace/index.ts, which src/proof/index.ts, src/collaboration/index.ts and (as
-- `serializeForHash`) src/gateway/index.ts repeat word for word. Numbers are naturals; `undefined`,
-- byte arrays and keys that look like array indices do not occur in what the code signs or hashes.
pub mod Text
pub mod Order
pub mod Agree
pub mod Canonical
use atel_sdk.Base.{ℕ, String, Bool, true, false, List, [], ◌∷◌, map, concat, if◌then◌else◌}
use Text.{quote, decimal, join}
use Order.{str_ltb}

mutual
  pub data Value : Type 0 where
    null : Value
    bool : Bool → Value
    num : ℕ → Value
    str : String → Value
    obj : Fields → Value
    arr : Items → Value

  pub data Fields : Type 0 where
    end : Fields
    field : String → Value → Fields → Fields

  pub data Items : Type 0 where
    nil : Items
    cons : Value → Items → Items

-- `Object.keys(record).sort()` with each key's entry beside it: the stable sort by key.
module _ {ℓ} {A : Type ℓ} where
  unfoldable pub insert_by_key : String → A → List (String × A) → List (String × A)
  insert_by_key k a [] = (k, a) ∷ []
  insert_by_key k a ((j, b) ∷ l) =
      if str_ltb j k then (j, b) ∷ insert_by_key k a l else (k, a) ∷ (j, b) ∷ l

  unfoldable pub sort_by_key : List (String × A) → List (String × A)
  sort_by_key [] = []
  sort_by_key ((k, a) ∷ l) = insert_by_key k a (sort_by_key l)

abbrev pub wrap : String → String → String → String
wrap left s right = concat left (concat s right)

abbrev pub bool_text : Bool → String
bool_text true = "true"
bool_text false = "false"

-- `${JSON.stringify(k)}:${text}`
abbrev pub pair_text : String × String → String
pair_text (k, text) = concat (quote k) (concat ":" text)

-- JSON.stringify
unfoldable mutual
  pub stringify : Value → String
  stringify null = "null"
  stringify (bool b) = bool_text b
  stringify (num n) = decimal n
  stringify (str s) = quote s
  stringify (arr xs) = wrap "[" (join "," (stringify_items xs)) "]"
  stringify (obj fs) = wrap "{" (join "," (map pair_text (stringify_fields fs))) "}"

  pub stringify_items : Items → List String
  stringify_items nil = []
  stringify_items (cons v xs) = stringify v ∷ stringify_items xs

  pub stringify_fields : Fields → List (String × String)
  stringify_fields end = []
  stringify_fields (field k v fs) = (k, stringify v) ∷ stringify_fields fs

-- sortedStringify
unfoldable mutual
  pub sorted_stringify : Value → String
  sorted_stringify null = "null"
  sorted_stringify (bool b) = bool_text b
  sorted_stringify (num n) = decimal n
  sorted_stringify (str s) = quote s
  sorted_stringify (arr xs) = wrap "[" (join "," (sorted_items xs)) "]"
  sorted_stringify (obj fs) =
      wrap "{" (join "," (map pair_text (sort_by_key (sorted_fields fs)))) "}"

  pub sorted_items : Items → List String
  sorted_items nil = []
  sorted_items (cons v xs) = sorted_stringify v ∷ sorted_items xs

  pub sorted_fields : Fields → List (String × String)
  sorted_fields end = []
  sorted_fields (field k v fs) = (k, sorted_stringify v) ∷ sorted_fields fs

unfoldable pub insert_field : String → Value → Fields → Fields
insert_field k v end = field k v end
insert_field k v (field j w fs) =
    if str_ltb j k then field j w (insert_field k v fs) else field k v (field j w fs)

-- The replacer of serializePayload rebuilds every object with its keys sorted.
unfoldable mutual
  pub sort_keys : Value → Value
  sort_keys null = null
  sort_keys (bool b) = bool b
  sort_keys (num n) = num n
  sort_keys (str s) = str s
  sort_keys (arr xs) = arr (sort_items xs)
  sort_keys (obj fs) = obj (sort_fields fs)

  pub sort_items : Items → Items
  sort_items nil = nil
  sort_items (cons v xs) = cons (sort_keys v) (sort_items xs)

  pub sort_fields : Fields → Fields
  sort_fields end = end
  sort_fields (field k v fs) = insert_field k (sort_keys v) (sort_fields fs)

unfoldable pub serialize_payload : Value → String
serialize_payload v = stringify (sort_keys v)
