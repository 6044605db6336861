-- ===== src/Skills/Tests.antt =====
-- Runs of the audit log, with a digest and a JSON that keep all of their input.
use kaf_claw.Base.{
  suc, text_eq, lookup, insert, delete, ◌+◌, Text, lit, trim_space, trim_left, trim_right, is_space,
  All, false, List, [], ◌∷◌, ◌≡◌, refl,
}
use kaf_claw.Skills.Audit.{
  string, other, Entry, read_last_audit_hash, append_chained_audit_line, write_line, chained_line,
  linked, compute_audit_hash, normalize_audit_payload,
}
use kaf_claw.Skills.Audit.Laws.{append_all}

audit : Unit {0}
unfolding chained_line linked compute_audit_hash normalize_audit_payload insert delete lookup
    text_eq read_last_audit_hash append_chained_audit_line write_line append_all trim_space
    trim_left trim_right is_space
audit = tt

-- The bytes moved past the blanks, and an exclamation mark.
abbrev code_onto : Text → Text → Text
code_onto rest [] = 33 ∷ rest
code_onto rest (c ∷ s) = (c + 34) ∷ code_onto rest s

abbrev plain_digest : Text → Text
plain_digest s = code_onto [] s

abbrev Solid : Text → Type 0
Solid = All (λ c. is_space c ≡ false)

-- A text before another, with a zero behind it.
abbrev put : Text → Text → Text
put [] rest = 0 ∷ rest
put (c ∷ s) rest = suc c ∷ put s rest

abbrev plain_json : Entry → Text
plain_json [] = []
plain_json ((k, string v) ∷ e) = 1 ∷ put k (put v (plain_json e))
plain_json ((k, other v) ∷ e) = 2 ∷ put k (put v (plain_json e))

abbrev event : Text → Entry
event what = (lit "eventType", string what) ∷ []

abbrev events : List Entry
events = event (lit "install") ∷ event (lit "start") ∷ []

-- The same, with a hash that the payload brings along, which the chain takes away.
abbrev with_a_hash : List Entry
with_a_hash = event (lit "install") ∷ ((lit "hash", string (lit "00")) ∷ event (lit "start")) ∷ []

abbrev line_of : Text → Text → Entry
line_of what last = chained_line plain_digest plain_json (event what) last

-- Two processes that both read before either writes leave two lines of the same previous hash.
forked :
    let log = line_of (lit "a") [] ∷ [] in
    let last = read_last_audit_hash log in
    write_line plain_digest plain_json
      (event (lit "c"))
      last
      (write_line plain_digest plain_json (event (lit "b")) last log)
    ≡ line_of (lit "a") [] ∷ line_of (lit "b") last ∷ line_of (lit "c") last ∷ []
unfolding audit
forked = refl
