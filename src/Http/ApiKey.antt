-- ===== src/Http/ApiKey.antt =====
-- Where a request's API key is read from (src/auth/extract-api-key.ts).
use Prim.Native.String.{String, [], ◌∷◌, len, slice}
use Prim.Native.Char.{Char, code}
use text.Mathlib.Text.{starts_with}
use avasettile.Common.{Bool, Option, none, some, List, leb, if◌then◌else◌, ◌==◌, ◌&&◌, ◌||◌}

pub data Header : Type 0 where
  absent : Header
  single : String → Header
  many : List String → Header

pub record HttpRequest : Type 0 where
  pub avasettle_api_key : Header
  pub authorization : Option String
  pub ip : Option String

-- White space and line ends of ECMAScript.
abbrev is_space : Char → Bool
is_space c =
    let n = code c in
    (leb 9 n && leb n 13)
    || n == 32
    || n == 160
    || n == 5760
    || (leb 8192 n && leb n 8202)
    || n == 8232
    || n == 8233
    || n == 8239
    || n == 8287
    || n == 12288
    || n == 65279

abbrev trim_start : String → String
trim_start [] = []
trim_start (c ∷ s) = if is_space c then trim_start s else c ∷ s

abbrev append_unless_space : Char → String → String
append_unless_space c [] = if is_space c then [] else c ∷ []
append_unless_space c (d ∷ s) = c ∷ d ∷ s

abbrev trim_end : String → String
trim_end [] = []
trim_end (c ∷ s) = append_unless_space c (trim_end s)

-- `s.trim()`
abbrev pub trim : String → String
trim s = trim_end (trim_start s)

-- `s || undefined`
abbrev pub or_undefined : String → Option String
or_undefined [] = none
or_undefined (c ∷ s) = some (c ∷ s)

abbrev first_header : Header → Option String
first_header absent = none
first_header (single s) = or_undefined s
first_header (many List.[]) = none
first_header (many (List.◌∷◌ s ss)) = or_undefined s

abbrev bearer_key : Option String → Option String
bearer_key none = none
bearer_key (some s) =
    if starts_with s "Bearer " then or_undefined (trim (slice s (len "Bearer ") (len s))) else none

-- `extractApiKey`
unfoldable pub extract_api_key : HttpRequest → Option String
extract_api_key req = elim (first_header req.avasettle_api_key) [
  | some key ↦ some key
  | none ↦ bearer_key req.authorization
]
