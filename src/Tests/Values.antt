-- ===== src/Tests/Values.antt =====
-- The theorems on JSON texts, Merkle trees' leaves and schemas at concrete values.
use atel_sdk.Base.{◌≡◌, refl, none, some, [], ◌∷◌, List, false≢true, eq_iff}
use atel_sdk.Json.{Value, num, str, obj, end, field, serialize_payload, sorted_stringify}
use atel_sdk.Json.Canonical.{SameValue, objects, swap}
use atel_sdk.Schema.{Task, CapabilityEntry, low, high}

abbrev pub one_way : Value
one_way = obj (field "b" (num 1) (field "a" (str "x") end))

abbrev pub other_way : Value
other_way = obj (field "a" (str "x") (field "b" (num 1) end))

texts : serialize_payload one_way ≡ "{\"a\":\"x\",\"b\":1}"
unfolding serialize_payload atel_sdk.Json.stringify atel_sdk.Json.sort_keys atel_sdk.Json.Text.join
    atel_sdk.Json.insert_field atel_sdk.Json.Order.str_ltb atel_sdk.Json.Text.quote
    atel_sdk.Json.Text.decimal
texts = refl

pub reordered : SameValue one_way other_way
reordered = objects (swap "b" "a" (num 1) (str "x") end (λ e. false≢true ((eq_iff "b" "a").1 e)))

abbrev coding : Task
coding = record { intent_type = "coding"; risk = high; settlement = none; max_cost = some 5 }

abbrev offers : List CapabilityEntry
offers =
    record {
      type = "coding";
      max_risk_level = some low;
      supported_settlements = none;
      max_cost = none;
    }
    ∷ record {
      type = "coding";
      max_risk_level = none;
      supported_settlements = none;
      max_cost = some 9;
    }
    ∷ []
