-- ===== src/Channels/Pairing.antt =====
-- internal/channels/pairing.go. The setting pairing_pending_v1 is what encoding/json makes of it: the
-- list of entries, or none where its text is no such list. Times are nanoseconds, 0 for the zero
-- time; the clock and the code that crypto/rand gives are arguments. Saving succeeds.
pub mod Laws
pub mod Admission
use kaf_claw.Base.{
  ℤ, pos, is_nonpos, ℕ, zero, suc, ◌+◌, ◌-◌, ◌==◌, ltb, Text, lit, text_eq, is_empty, trim_space,
  keep, length, drop, Bool, true, false, not, ◌&&◌, ◌||◌, Option, none, some, List, [], ◌∷◌, ◌++◌,
  if◌then◌else◌,
}
use kaf_claw.Channels.Senders.{
  normalize_channel, normalize_code, normalize_allow_entry, append_unique,
}

pub record PendingPairing : Type 0 where
  pub channel : Text
  pub sender_id : Text
  pub code : Text
  pub created_at : ℕ
  pub expires_at : ℕ

pub data PairingError : Type 0 where
  fields_required not_parsed no_code code_not_found sender_required unsupported_channel :
      PairingError

abbrev pub Setting : Type 0
Setting = Option (List PendingPairing)

abbrev pub default_pairing_ttl : ℕ
default_pairing_ttl = 3600000000000

abbrev pub max_pending_pairings : ℕ
max_pending_pairings = 3

abbrev pub ttl_or_default : ℤ → ℕ
ttl_or_default (ℤ.pos zero) = default_pairing_ttl
ttl_or_default (ℤ.pos (suc n)) = suc n
ttl_or_default (ℤ.negsuc n) = default_pairing_ttl

abbrev pub cleaned : PendingPairing → PendingPairing
cleaned it = record {
  channel = normalize_channel it.channel;
  sender_id = trim_space it.sender_id;
  code = normalize_code it.code;
  created_at = it.created_at;
  expires_at = it.expires_at;
}

abbrev pub is_current : ℕ → PendingPairing → Bool
is_current now it = it.expires_at == 0 || ltb now it.expires_at

abbrev pub is_complete : PendingPairing → Bool
is_complete it = not (is_empty it.channel) && not (is_empty it.code) && not (is_empty it.sender_id)

unfoldable pub filter_non_expired : List PendingPairing → ℕ → List PendingPairing
filter_non_expired [] now = []
filter_non_expired (it ∷ items) now =
    let rest = filter_non_expired items now in
    if is_current now it && is_complete (cleaned it) then cleaned it ∷ rest else rest

abbrev pub is_from : Text → Text → PendingPairing → Bool
is_from channel sender it = text_eq it.channel channel && text_eq it.sender_id sender

unfoldable pub find_from : Text → Text → List PendingPairing → Option PendingPairing
find_from channel sender [] = none
find_from channel sender (it ∷ items) =
    if is_from channel sender it then some it else find_from channel sender items

-- `slices.SortFunc` by the time of creation: insertion sort, which it is up to twelve items. The
-- library leaves the order of items of one time open; here they keep theirs.
unfoldable pub insert_sorted : PendingPairing → List PendingPairing → List PendingPairing
insert_sorted it [] = it ∷ []
insert_sorted it (x ∷ xs) =
    if ltb x.created_at it.created_at then x ∷ insert_sorted it xs else it ∷ x ∷ xs

unfoldable pub sort_by_created : List PendingPairing → List PendingPairing
sort_by_created [] = []
sort_by_created (x ∷ xs) = insert_sorted x (sort_by_created xs)

unfoldable pub latest : List PendingPairing → List PendingPairing
latest items =
    if ltb max_pending_pairings (length items)
    then drop (length items - max_pending_pairings) (sort_by_created items)
    else items

pub data Result : Type 0 where
  ok : PendingPairing → Result
  err : PairingError → Result

abbrev pub new_pairing : ℕ → Text → Text → Text → ℤ → PendingPairing
new_pairing now code channel sender ttl = record {
  channel = channel;
  sender_id = sender;
  code = code;
  created_at = now;
  expires_at = now + ttl_or_default ttl;
}

-- The part of `CreateOrGetPending` behind the loading, over the entries that are current.
unfoldable pub get_or_append :
    ℕ → Option Text → Text → Text → ℤ → Setting → List PendingPairing → Result × Setting
get_or_append now code channel sender ttl setting items = elim (find_from channel sender items) [
  | some it ↦ (ok it, some items)
  | none ↦ elim code [
    | none ↦ (err no_code, setting)
    | some c ↦
        let entry = new_pairing now c channel sender ttl in
        (ok entry, some (latest (items ++ entry ∷ [])))
  ]
]

unfoldable pub create_or_get_pending :
    ℕ → Option Text → Text → Text → ℤ → Setting → Result × Setting
create_or_get_pending now code raw_channel raw_sender ttl setting =
    let channel = normalize_channel raw_channel in
    let sender = trim_space raw_sender in
    if is_empty channel || is_empty sender then (err fields_required, setting) else elim setting [
      | none ↦ (err not_parsed, none)
      | some items ↦
          get_or_append now code channel sender ttl (some items) (filter_non_expired items now)
    ]

unfoldable pub list_pending : ℕ → Setting → Option (List PendingPairing) × Setting
list_pending now none = (none, none)
list_pending now (some items) =
    let current = filter_non_expired items now in (some current, some current)

abbrev pub is_hit : Text → Text → PendingPairing → Bool
is_hit channel code it = text_eq it.channel channel && text_eq (normalize_code it.code) code

abbrev pub cons_rest :
    PendingPairing
    → Option (PendingPairing × List PendingPairing)
    → Option (PendingPairing × List PendingPairing)
cons_rest it none = none
cons_rest it (some (hit, rest)) = some (hit, it ∷ rest)

-- The loop of `takePending`: the first hit, and the others in order.
unfoldable pub take_hit :
    Text → Text → List PendingPairing → Option (PendingPairing × List PendingPairing)
take_hit channel code [] = none
take_hit channel code (it ∷ items) =
    let rest = take_hit channel code items in
    if is_hit channel code it then some (it, items) else cons_rest it rest

pub data Taken : Type 0 where
  taken : PendingPairing → List PendingPairing → Taken
  not_taken : PairingError → Taken

unfoldable pub take_pending : ℕ → Text → Text → Setting → Taken
take_pending now raw_channel raw_code setting =
    let channel = normalize_channel raw_channel in
    let code = normalize_code raw_code in
    if is_empty channel || is_empty code then not_taken fields_required else elim setting [
      | none ↦ not_taken not_parsed
      | some items ↦ elim (take_hit channel code (filter_non_expired items now)) [
        | none ↦ not_taken code_not_found
        | some (hit, rest) ↦ taken hit rest
      ]
    ]

-- The allowlists of the configuration, by channel.
pub record Config : Type 0 where
  pub slack : List Text
  pub msteams : List Text
  pub whatsapp : List Text

pub data Added : Type 0 where
  added : Config → Added
  not_added : PairingError → Added

unfoldable pub add_channel_allow_from : Config → Text → Text → Added
add_channel_allow_from cfg channel raw =
    let sender = normalize_allow_entry channel raw in
    let name = normalize_channel channel in
    if is_empty sender
    then not_added sender_required
    else if text_eq name (lit "slack")
    then added (record cfg { slack = append_unique cfg.slack sender })
    else if text_eq name (lit "msteams")
    then added (record cfg { msteams = append_unique cfg.msteams sender })
    else if text_eq name (lit "whatsapp")
    then added (record cfg { whatsapp = append_unique cfg.whatsapp sender })
    else not_added unsupported_channel

-- `Approve` with a configuration. What it changes is the configuration and the setting.
unfoldable pub approve : ℕ → Text → Text → Config → Setting → Result × (Config × Setting)
approve now channel code cfg setting = elim (take_pending now channel code setting) [
  | not_taken why ↦ (err why, (cfg, setting))
  | taken entry rest ↦ elim (add_channel_allow_from cfg entry.channel entry.sender_id) [
    | not_added why ↦ (err why, (cfg, setting))
    | added cfg' ↦ (ok entry, (cfg', some rest))
  ]
]

unfoldable pub deny : ℕ → Text → Text → Setting → Result × Setting
deny now channel code setting = elim (take_pending now channel code setting) [
  | not_taken why ↦ (err why, setting)
  | taken entry rest ↦ (ok entry, some rest)
]
