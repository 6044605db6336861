-- ===== src/Skills/Audit/Laws.antt =====
-- That the last hash of a log fixes all of it, but for a collision of SHA-256.
use kaf_claw.Base.{Text, is_empty, trim_space, lookup, delete, true, false, List, [], ◌∷◌, ◌≡◌, ◌≢◌}
use kaf_claw.Skills.Audit.{
  Entry, Log, hash_key, normalize_audit_payload, linked, append_chained_audit_line,
}

-- Two objects with the same value, or none, at each key.
abbrev pub SameEntry : Entry → Entry → Type 0
SameEntry e e' = (key : Text) → lookup key e ≡ lookup key e'

-- Two histories of the same payloads, in the same order, but for the keys that the chain sets.
abbrev pub SameAll : List Entry → List Entry → Type 0
SameAll [] [] = Unit
SameAll (e ∷ es) (o ∷ os) =
    SameEntry (normalize_audit_payload e) (normalize_audit_payload o) × SameAll es os
SameAll _ _ = true ≡ false

-- Two different inputs of one digest.
abbrev pub Collision : (Text → Text) → Type 0
Collision sha256 = (a : Text) × ((b : Text) × ((a ≢ b) × (sha256 a ≡ sha256 b)))

-- A digest in hexadecimal: not empty, and with no blanks around it.
pub record IsHex (sha256 : Text → Text) : Type 0 where
  pub nonempty : (s : Text) → is_empty (sha256 s) ≡ false
  pub trimmed : (s : Text) → trim_space (sha256 s) ≡ sha256 s

-- What is hashed of a line.
abbrev hashed : Entry → Text → Entry
hashed payload prev = delete hash_key (linked payload prev)

module _ (sha256 : Text → Text) (marshal : Entry → Text) where
  -- The payloads that are appended to a log, the last one first.
  unfoldable pub append_all : List Entry → Log
  append_all [] = []
  append_all (payload ∷ before) =
      append_chained_audit_line sha256 marshal payload (append_all before)

  -- The hash of what was appended last, empty at first.
  abbrev chain_hash : List Entry → Text
  chain_hash [] = []
  chain_hash (payload ∷ before) = sha256 (marshal (hashed payload (chain_hash before)))
