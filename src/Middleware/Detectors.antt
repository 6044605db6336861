-- ===== src/Middleware/Detectors.antt =====
-- internal/provider/middleware/detectors.go. A regular expression is where it finds matches and what
-- it makes of a text, which package regexp does.
use kaf_claw.Base.{
  ℕ, Text, lit, to_lower, to_upper, contains, List, [], ◌∷◌, ◌++◌, map, if◌then◌else◌,
}

pub record NamedRegex : Type 0 where
  pub name : Text
  pub find_all : Text → List (ℕ × ℕ)
  pub replace_all : Text → Text → Text

pub record Detector : Type 0 where
  pub pii_detectors : List NamedRegex
  pub secret_detectors : List NamedRegex
  pub custom_detectors : List NamedRegex

-- The types of the matches.
unfoldable pub find_matches : NamedRegex → Text → List Text
find_matches nr text = map (λ _. nr.name) (nr.find_all text)

unfoldable pub scan_with : List NamedRegex → Text → List Text
scan_with [] text = []
scan_with (nr ∷ nrs) text = find_matches nr text ++ scan_with nrs text

unfoldable pub scan : Detector → Text → List Text
scan d text =
    scan_with d.pii_detectors text
    ++ (scan_with d.secret_detectors text ++ scan_with d.custom_detectors text)

unfoldable pub redact_with : List NamedRegex → Text → Text
redact_with [] text = text
redact_with (nr ∷ nrs) text =
    redact_with nrs (nr.replace_all text (lit "[REDACTED:" ++ (to_upper nr.name ++ lit "]")))

unfoldable pub redact : Detector → Text → Text
redact d text = redact_with (d.pii_detectors ++ (d.secret_detectors ++ d.custom_detectors)) text

unfoldable pub contains_keywords : Text → List Text → List Text
contains_keywords text [] = []
contains_keywords text (kw ∷ kws) =
    let rest = contains_keywords text kws in
    if contains (to_lower text) (to_lower kw) then kw ∷ rest else rest
