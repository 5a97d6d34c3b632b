-- ===== src/Manifest/Pattern.antt =====
-- The three regular expressions of sdk/manifest/manifest.go, as recognisers of byte strings.
use weaveplatform_agent_core.Base.{
  ℕ, Bool, true, false, ◌&&◌, ◌||◌, List, [], ◌∷◌, leb, ◌==◌, all, length, drop, has_prefix, codes,
  if◌then◌else◌,
}

abbrev pub is_digit : ℕ → Bool
is_digit c = leb b'0' c && leb c b'9'

abbrev pub is_lower : ℕ → Bool
is_lower c = leb b'a' c && leb c b'z'

abbrev pub is_upper : ℕ → Bool
is_upper c = leb b'A' c && leb c b'Z'

-- [a-z0-9-]
abbrev pub id_byte : ℕ → Bool
id_byte c = is_lower c || (is_digit c || c == b'-')

-- ^[a-z][a-z0-9-]*$
unfoldable pub id_matches : List ℕ → Bool
id_matches [] = false
id_matches (c ∷ cs) = is_lower c && all id_byte cs

-- [0-9A-Za-z.-]
abbrev pub tag_byte : ℕ → Bool
tag_byte c = is_digit c || (is_upper c || (is_lower c || (c == b'.' || c == b'-')))

-- (-[0-9A-Za-z.-]+)?$ behind the third number.
unfoldable pub tag_matches : List ℕ → Bool
tag_matches [] = true
tag_matches (c ∷ []) = false
tag_matches (c ∷ d ∷ cs) = c == b'-' && all tag_byte (d ∷ cs)

-- \d*, then what `next` asks for; what follows a number is no digit, so the longest run is the match.
unfoldable pub digits_then : (List ℕ → Bool) → List ℕ → Bool
digits_then next [] = next []
digits_then next (c ∷ cs) =
    let rest = digits_then next cs in if is_digit c then rest else next (c ∷ cs)

unfoldable pub number_then : (List ℕ → Bool) → List ℕ → Bool
number_then next [] = false
number_then next (c ∷ cs) = is_digit c && digits_then next cs

unfoldable pub dot_then : (List ℕ → Bool) → List ℕ → Bool
dot_then next [] = false
dot_then next (c ∷ cs) = c == b'.' && next cs

-- ^\d+\.\d+\.\d+(-[0-9A-Za-z.-]+)?$
unfoldable pub version_matches : List ℕ → Bool
unfolding tag_matches digits_then number_then dot_then
version_matches = number_then (dot_then (number_then (dot_then (number_then tag_matches))))

-- [a-f0-9]
abbrev pub hex_byte : ℕ → Bool
hex_byte c = (leb b'a' c && leb c b'f') || is_digit c

-- ^sha256:[a-f0-9]{64}$
unfoldable pub digest_matches : List ℕ → Bool
digest_matches s =
    has_prefix s (codes "sha256:") && (length (drop 7 s) == 64 && all hex_byte (drop 7 s))
