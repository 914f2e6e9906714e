-- ===== src/Notify.antt =====
-- Telegram bindings and the inbound leader of bin/atel.mjs, shared by the agents of a machine through two
-- files: who owns a chat of a bot, and who polls it. Times are in milliseconds. Texts have no spaces at their
-- ends, so trimming is left out.
pub mod Lease
pub mod Owners
use atel_sdk.Base.{
  ℕ, ◌+◌, ◌≤◌, ◌<◌, String, Bool, true, false, not, ◌&&◌, ◌||◌, Option, none, some, List, [], ◌∷◌,
  Map, lookup, insert, erase, ltb, leb, truthy, concat, ◌==◌, if◌then◌else◌,
}
use atel_sdk.Identity.Split.{split}

pub record TelegramBinding : Type 0 where
  pub chat_id : String
  pub bot_id : String
  pub owner_did : String
  pub updated_at : ℕ

pub record TelegramLeader : Type 0 where
  pub did : String
  pub expires_at : ℕ
  pub updated_at : ℕ

pub record InboundConfig : Type 0 where
  pub cursor_key : String
  pub chat_id : String
  pub bot_id : String

abbrev pub lease_ms : ℕ
lease_ms = 15000

abbrev pub owner_of : Option TelegramBinding → String
owner_of none = ""
owner_of (some b) = b.owner_did

pub record Registration : Type 0 where
  pub owner_did : String
  pub rebound : Bool

-- An owner that is there and is another.
abbrev pub is_other : String → String → Bool
is_other owner did = truthy owner && not (owner == did)

unfoldable pub register_telegram_inbound_binding :
    ℕ → String → InboundConfig → Map TelegramBinding → Registration × Map TelegramBinding
register_telegram_inbound_binding now did config bindings =
    let owner = owner_of (lookup config.cursor_key bindings) in
    if not (truthy did && truthy config.cursor_key && truthy config.chat_id)
    then (record { owner_did = ""; rebound = false }, bindings)
    else if is_other owner did
    then (record { owner_did = owner; rebound = false }, bindings)
    else (
      record { owner_did = did; rebound = true },
      insert config.cursor_key
          (record {
            chat_id = config.chat_id;
            bot_id = config.bot_id;
            owner_did = did;
            updated_at = now;
          })
          bindings,
    )

pub record BindingKey : Type 0 where
  pub key : String
  pub bot_id : String
  pub chat_id : String

-- `token.split(':', 1)[0] || 'telegram'`
abbrev pub first_part : List String → String
first_part [] = "telegram"
first_part (p ∷ parts) = if truthy p then p else "telegram"

unfoldable pub get_telegram_binding_key : String → String → Option BindingKey
get_telegram_binding_key chat_id bot_token =
    let bot_id = first_part (split bot_token) in
    if truthy chat_id && truthy bot_token
    then some
        (record { key = concat bot_id (concat ":" chat_id); bot_id = bot_id; chat_id = chat_id })
    else none

pub record Ownership : Type 0 where
  pub ok : Bool
  pub owner_did : String
  pub key : String

abbrev pub ownership_at : String → Option BindingKey → Map TelegramBinding → Ownership
ownership_at did none bindings = record { ok = true; owner_did = did; key = "" }
ownership_at did (some b) bindings =
    let owner = owner_of (lookup b.key bindings) in
    if not (truthy did)
    then record { ok = true; owner_did = did; key = b.key }
    else if is_other owner did
    then record { ok = false; owner_did = owner; key = b.key }
    else record { ok = true; owner_did = if truthy owner then owner else did; key = b.key }

unfoldable pub ensure_telegram_binding_ownership :
    String → String → String → Map TelegramBinding → Ownership
ensure_telegram_binding_ownership did chat_id bot_token bindings =
    ownership_at did (get_telegram_binding_key chat_id bot_token) bindings

pub record TelegramFiles : Type 0 where
  pub bindings : Map TelegramBinding
  pub leaders : Map TelegramLeader

abbrev pub is_leader : String → Option TelegramLeader → Bool
is_leader did none = false
is_leader did (some l) = l.did == did

abbrev pub owns : String → Option TelegramBinding → Bool
owns did none = false
owns did (some b) = b.owner_did == did

abbrev pub release_at : String → Option BindingKey → TelegramFiles → Bool × TelegramFiles
release_at did none files = (false, files)
release_at did (some b) files =
    if truthy did && owns did (lookup b.key files.bindings)
    then (
      true,
      record {
        bindings = erase b.key files.bindings;
        leaders =
            if is_leader did (lookup b.key files.leaders)
            then erase b.key files.leaders
            else files.leaders;
      },
    )
    else (false, files)

unfoldable pub release_telegram_binding_ownership :
    String → String → String → TelegramFiles → Bool × TelegramFiles
release_telegram_binding_ownership did chat_id bot_token files =
    release_at did (get_telegram_binding_key chat_id bot_token) files

pub record Acquisition : Type 0 where
  pub leader : String
  pub acquired : Bool

-- Another leader whose lease has not run out.
abbrev pub is_held : ℕ → String → Option TelegramLeader → Bool
is_held now did none = false
is_held now did (some l) = is_other l.did did && ltb now l.expires_at

abbrev pub leader_of : Option TelegramLeader → String
leader_of none = ""
leader_of (some l) = l.did

unfoldable pub acquire_telegram_inbound_leader :
    ℕ → String → String → Map TelegramLeader → Acquisition × Map TelegramLeader
acquire_telegram_inbound_leader now did key leaders =
    let current = lookup key leaders in
    if is_held now did current
    then (record { leader = leader_of current; acquired = false }, leaders)
    else (
      record { leader = did; acquired = true },
      insert key (record { did = did; expires_at = now + lease_ms; updated_at = now }) leaders,
    )
