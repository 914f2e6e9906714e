-- ===== src/Notify/Owners.antt =====
-- The owners of Telegram chats in bin/atel.mjs, against the other agents.
use atel_sdk.Base.{
  ℕ, String, ◌≡◌, sym, ap, ◌∙◌, true, false, ◌&&◌, Option, none, some, List, [], ◌∷◌, All, Map,
  lookup, lookup-insert, lookup-erase, truthy, ◌==◌, eq_iff, Bool-cases, false≢true, Option-cases,
  inl, inr, arith,
}
use atel_sdk.Notify.{
  TelegramBinding, TelegramFiles, InboundConfig, BindingKey, owner_of, is_other, owns,
  register_telegram_inbound_binding, release_telegram_binding_ownership, release_at,
  get_telegram_binding_key,
}

-- A registration or a release by an agent.
pub data Call : Type 0 where
  register : ℕ → String → InboundConfig → Call
  release : String → String → String → Call

abbrev pub caller : Call → String
caller (register now did config) = did
caller (release did chat_id bot_token) = did

abbrev pub call : Call → TelegramFiles → TelegramFiles
call (register now did config) files = record files {
  bindings = (register_telegram_inbound_binding now did config files.bindings).1;
}
call (release did chat_id bot_token) files =
    (release_telegram_binding_ownership did chat_id bot_token files).1

abbrev pub call_all : List Call → TelegramFiles → TelegramFiles
call_all [] files = files
call_all (c ∷ calls) files = call_all calls (call c files)

abbrev pub Owns : String → String → TelegramFiles → Type 0
Owns did key files = owner_of (lookup key files.bindings) ≡ did

-- To another agent the owner is another one.
own-other :
    (owner other did : String)
    → owner ≡ did
    → truthy did ≡ true
    → (other == did) ≡ false
    → is_other owner other ≡ true
own-other owner other did own named apart =
    rw own (ground (arith, named, apart, eq_iff other did, eq_iff did other))

-- A key at which another agent may register is not the owner's.
free-elsewhere :
    (k key other did : String) (bindings : Map TelegramBinding)
    → owner_of (lookup key bindings) ≡ did
    → truthy did ≡ true
    → (other == did) ≡ false
    → is_other (owner_of (lookup k bindings)) other ≡ false
    → (k == key) ≡ false
free-elsewhere k key other did bindings own named apart free = elim (Bool-cases (k == key)) [
  | inr elsewhere ↦ elsewhere
  | inl here ↦
      let same = (eq_iff k key).0 here in
      let taken = own-other (owner_of (lookup k bindings)) other did (rw same own) named apart in
      elim (false≢true (sym free ∙ taken)) [ ]
]

register-Owns :
    (now : ℕ) (other : String) (config : InboundConfig) (did key : String) (files : TelegramFiles)
    → truthy did ≡ true
    → (other == did) ≡ false
    → Owns did key files
    → Owns did key (call (register now other config) files)
unfolding register_telegram_inbound_binding
register-Owns now other config did key files named apart own =
    elim (Bool-cases (truthy other && truthy config.cursor_key && truthy config.chat_id)) [
      | inr incomplete ↦ rw incomplete own
      | inl complete ↦
          elim (Bool-cases (is_other (owner_of (lookup config.cursor_key files.bindings)) other)) [
            | inl taken ↦ rw (complete, taken) own
            | inr free ↦
                let elsewhere =
                  free-elsewhere config.cursor_key key other did files.bindings own named apart
                    free in
                rw (complete, free)
                  (ap owner_of (
                      sym (
                        rw elsewhere at (
                          lookup-insert config.cursor_key
                            (record {
                              chat_id = config.chat_id;
                              bot_id = config.bot_id;
                              owner_did = other;
                              updated_at = now;
                            })
                            files.bindings key)))
                    ∙ own)
          ]
    ]

-- A binding that another agent owns is not at the owner's key.
owned-elsewhere :
    (k key other did : String) (bindings : Map TelegramBinding)
    → owner_of (lookup key bindings) ≡ did
    → (other == did) ≡ false
    → owns other (lookup k bindings) ≡ true
    → (k == key) ≡ false
owned-elsewhere k key other did bindings own apart owned = elim (Bool-cases (k == key)) [
  | inr elsewhere ↦ elsewhere
  | inl here ↦ elim (Option-cases (lookup k bindings)) [
    | inl missing ↦ let bad = rw missing at owned in cc
    | inr (b, found) ↦
        let same = (eq_iff k key).0 here in
        let mine : b.owner_did ≡ did = ap owner_of (sym found) ∙ rw same own in
        let theirs = rw found at owned in
        ground (arith, mine, theirs, apart, eq_iff b.owner_did other, eq_iff other did)
  ]
]

release_at-Owns :
    (other : String) (b : Option BindingKey) (did key : String) (files : TelegramFiles)
    → (other == did) ≡ false
    → Owns did key files
    → Owns did key (release_at other b files).1
release_at-Owns other none did key files apart own = own
release_at-Owns other (some b) did key files apart own =
    elim (Bool-cases (truthy other && owns other (lookup b.key files.bindings))) [
      | inr refused ↦ rw refused own
      | inl released ↦
          let elsewhere =
            owned-elsewhere b.key key other did files.bindings own apart
              (ground (arith, released)) in
          rw released
            (ap owner_of (sym (rw elsewhere at (lookup-erase b.key files.bindings key))) ∙ own)
    ]

call-Owns :
    (c : Call) (did key : String) (files : TelegramFiles)
    → truthy did ≡ true
    → (caller c == did) ≡ false
    → Owns did key files
    → Owns did key (call c files)
unfolding release_telegram_binding_ownership
call-Owns (register now other config) did key files named apart own =
    register-Owns now other config did key files named apart own
call-Owns (release other chat_id bot_token) did key files named apart own =
    release_at-Owns other (get_telegram_binding_key chat_id bot_token) did key files apart own

-- Whatever the other agents register and release, an agent that owns a chat's key goes on owning it.
pub call_all-Owns :
    (calls : List Call) (did key : String) (files : TelegramFiles)
    → truthy did ≡ true
    → All (λ c. (caller c == did) ≡ false) calls
    → Owns did key files
    → Owns did key (call_all calls files)
call_all-Owns [] did key files named others own = own
call_all-Owns (c ∷ calls) did key files named others own =
    call_all-Owns calls did key (call c files) named others.1
      (call-Owns c did key files named others.0 own)
