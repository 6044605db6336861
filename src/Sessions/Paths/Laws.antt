-- ===== src/Sessions/Paths/Laws.antt =====
-- What a key can make of the name of its file.
use kaf_claw.Base.{
  ◌++◌, ℕ, Text, lit, any-append, is_empty, strip_suffix-append, Bool, true, false, some, [], ◌∷◌,
  ◌≡◌, ◌≢◌, refl, arith, ◌||◌, ap, ◌∙◌, Bool-cases, inl, inr, ◌==◌,
}
use kaf_claw.Sessions.Paths.{
  session_path, replace_byte, replace_dots, safe_key, file_name, listed_key, has_byte,
}

replaced : (b to : ℕ) (s : Text) → b ≢ to → has_byte b (replace_byte b to s) ≡ false
unfolding replace_byte
replaced b to [] n = refl
replaced b to (c ∷ s) n = ground (arith, replaced b to s n)

unreplaced :
    (b from to : ℕ) (s : Text)
    → b ≢ to
    → has_byte b s ≡ false
    → has_byte b (replace_byte from to s) ≡ false
unfolding replace_byte
unreplaced b from to [] n e = refl
unreplaced b from to (c ∷ s) n e = ground (arith, unreplaced b from to s n)

undotted :
    (b : ℕ) (dot : Bool) (s : Text)
    → b ≢ 95
    → b ≢ 46
    → has_byte b s ≡ false
    → has_byte b (replace_dots dot s) ≡ false
unfolding replace_dots
undotted b true [] n d e = ground arith
undotted b false [] n d e = refl
undotted b true (c ∷ s) n d e = ground (arith, undotted b false s n d)
undotted b false (c ∷ s) n d e = ground (arith, undotted b true s n d, undotted b false s n d)

safe_key-slash : (key : Text) → has_byte 47 (safe_key key) ≡ false
unfolding safe_key
safe_key-slash key =
    let colons : Text = replace_byte 58 95 key in
    undotted 47 false _ (ground arith) (ground arith) (
      unreplaced 47 92 95 (replace_byte 47 95 colons) (ground arith)
        (replaced 47 95 colons (ground arith)))

safe_key-backslash : (key : Text) → has_byte 92 (safe_key key) ≡ false
unfolding safe_key
safe_key-backslash key =
    undotted 92 false _ (ground arith) (ground arith)
      (replaced 92 95 (replace_byte 47 95 (replace_byte 58 95 key)) (ground arith))

named :
    (b : ℕ) (key : Text)
    → has_byte b (lit "..jsonl") ≡ false
    → has_byte b (safe_key key) ≡ false
    → has_byte b (file_name key) ≡ false
unfolding file_name
named b key l e = elim (Bool-cases (is_empty (safe_key key))) [
  | inl f ↦ rw f l
  | inr f ↦ rw f (ground (arith, any-append (λ c. c == b) (safe_key key) (lit ".jsonl")))
]

-- No key makes a name of a file that has a separator, so each file is in the directory of the sessions.
pub file_name-separators :
    (key : Text) → (has_byte 47 (file_name key) ≡ false) × (has_byte 92 (file_name key) ≡ false)
file_name-separators key =
    (named 47 key refl (safe_key-slash key), named 92 key refl (safe_key-backslash key))

kept_byte : (from to : ℕ) (s : Text) → has_byte from s ≡ false → replace_byte from to s ≡ s
unfolding replace_byte
kept_byte from to [] e = refl
kept_byte from to (c ∷ s) e = ground (arith, kept_byte from to s)

kept_dots : (s : Text) → has_byte 46 s ≡ false → replace_dots false s ≡ s
unfolding replace_dots
kept_dots [] e = refl
kept_dots (c ∷ s) e = ground (arith, kept_dots s)

there_and_back :
    (from to : ℕ) (s : Text)
    → has_byte to s ≡ false
    → replace_byte to from (replace_byte from to s) ≡ s
unfolding replace_byte
there_and_back from to [] e = refl
there_and_back from to (c ∷ s) e = ground (arith, there_and_back from to s)

plain_key :
    (key : Text)
    → (has_byte 47 key || has_byte 92 key || has_byte 46 key || has_byte 95 key) ≡ false
    → safe_key key ≡ replace_byte 58 95 key
unfolding safe_key
plain_key key e =
    let plain : Text = replace_byte 58 95 key in
    let slashes = kept_byte 47 95 plain (unreplaced 47 58 95 key (ground arith) (ground arith)) in
    let backslashes =
      kept_byte 92 95 plain (unreplaced 92 58 95 key (ground arith) (ground arith)) in
    let dots = kept_dots plain (unreplaced 46 58 95 key (ground arith) (ground arith)) in
    rw (slashes, backslashes) dots

is_empty-replace : (from to : ℕ) (s : Text) → is_empty (replace_byte from to s) ≡ is_empty s
unfolding replace_byte
is_empty-replace from to [] = refl
is_empty-replace from to (c ∷ s) = refl

-- A key that is not empty and has none of the separators, the dot and the underscore is read back from
-- the name of its file.
pub listed_key-file_name :
    (key : Text)
    → is_empty key ≡ false
    → (has_byte 47 key || has_byte 92 key || has_byte 46 key || has_byte 95 key) ≡ false
    → listed_key (file_name key) ≡ some key
unfolding listed_key file_name
listed_key-file_name key n e =
    let filled : is_empty (replace_byte 58 95 key) ≡ false = is_empty-replace 58 95 key ∙ n in
    rw
      (
        plain_key key e,
        filled,
        listed_key,
        strip_suffix-append (replace_byte 58 95 key) (lit ".jsonl"),
      )
      (ap some (there_and_back 58 95 key (ground arith)))

replace_byte_idem :
    (from to : ℕ) (s : Text)
    → replace_byte from to (replace_byte from to s) ≡ replace_byte from to s
unfolding replace_byte
replace_byte_idem from to [] = refl
replace_byte_idem from to (c ∷ s) = ground (arith, replace_byte_idem from to s)

-- A key and the one that has underscores for its colons have the same file.
pub session_path-underscored :
    (dir key : Text) → session_path dir key ≡ session_path dir (replace_byte 58 95 key)
unfolding session_path file_name safe_key
session_path-underscored dir key = rw (replace_byte_idem 58 95 key) refl

append-cancel : (s t u : Text) → s ++ t ≡ s ++ u → t ≡ u
append-cancel [] t u e = e
append-cancel (c ∷ s) t u e = append-cancel s t u (ground arith)

pub file_name-session_path :
    (dir key other : Text)
    → session_path dir key ≡ session_path dir other
    → file_name key ≡ file_name other
unfolding session_path
file_name-session_path dir key other e =
    ground (arith, append-cancel dir (47 ∷ file_name key) (47 ∷ file_name other) e)
