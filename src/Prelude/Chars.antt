-- ===== src/Prelude/Chars.antt =====
-- Texts by their characters: parts between separators, prefixes, and equality that ignores the case
-- of ASCII letters. A literal of the code has ASCII letters only, and no other character has one of
-- those in `dev`, `development` and `test` as its lower case.
use Prim.Native.Nat.{ℕ, ◌+◌}
use Prim.Native.Char.{code}
use Prim.Native.String.{String}
use mathlib.Core.Bool.{Bool, true, false, not, ◌||◌, ◌&&◌}
use mathlib.Core.List.{List, [], ◌∷◌}
use mathlib.Core.Path.{◌≡◌, refl}
use api_neutra_v.Prelude.Tests.{leb, ◌==◌, if◌then◌else◌}

-- `s.split(separator)`, for a separator of one character, by its code.
unfoldable pub split_on : ℕ → String → List String
split_on sep String.[] = "" ∷ []
split_on sep (String.◌∷◌ c s) =
    let rest = split_on sep s in
    if code c == sep
    then "" ∷ rest
    else elim rest [ [] ↦ String.◌∷◌ c "" ∷ [] | part ∷ parts ↦ String.◌∷◌ c part ∷ parts ]

-- `s.startsWith(prefix)`
unfoldable pub starts_with : String → String → Bool
starts_with String.[] s = true
starts_with (String.◌∷◌ c p) String.[] = false
starts_with (String.◌∷◌ c p) (String.◌∷◌ d s) = code c == code d && starts_with p s

-- `s.includes(needle)`
unfoldable pub contains : String → String → Bool
contains needle String.[] = starts_with needle ""
contains needle (String.◌∷◌ c s) = starts_with needle (String.◌∷◌ c s) || contains needle s

abbrev lower : ℕ → ℕ
lower c = if leb 65 c && leb c 90 then c + 32 else c

-- `s.toLowerCase() === t`
unfoldable pub lower_eq : String → String → Bool
lower_eq String.[] String.[] = true
lower_eq String.[] (String.◌∷◌ d t) = false
lower_eq (String.◌∷◌ c s) String.[] = false
lower_eq (String.◌∷◌ c s) (String.◌∷◌ d t) = lower (code c) == code d && lower_eq s t

-- `s.toLowerCase().includes(needle)`, for a needle of small letters that no letter outside ASCII
-- becomes, such as those of "hola".
unfoldable pub lower_starts_with : String → String → Bool
lower_starts_with String.[] s = true
lower_starts_with (String.◌∷◌ c p) String.[] = false
lower_starts_with (String.◌∷◌ c p) (String.◌∷◌ d s) =
    code c == lower (code d) && lower_starts_with p s

unfoldable pub lower_contains : String → String → Bool
lower_contains needle String.[] = lower_starts_with needle ""
lower_contains needle (String.◌∷◌ c s) =
    lower_starts_with needle (String.◌∷◌ c s) || lower_contains needle s

abbrev is_digit : ℕ → Bool
is_digit c = leb 48 c && leb c 57

-- `/^\d+\.\d+/.test(s)`, from the start, inside the first number, and after the dot.
abbrev after_dot : String → Bool
after_dot String.[] = false
after_dot (String.◌∷◌ c s) = is_digit (code c)

in_number : String → Bool
in_number String.[] = false
in_number (String.◌∷◌ c s) = is_digit (code c) && in_number s || code c == 46 && after_dot s

unfoldable pub starts_with_numbers : String → Bool
unfolding in_number
starts_with_numbers String.[] = false
starts_with_numbers (String.◌∷◌ c s) = is_digit (code c) && in_number s

split_test : split_on 46 "shop.neutra.ec" ≡ "shop" ∷ "neutra" ∷ "ec" ∷ []
unfolding split_on
split_test = refl

prefix_test :
    (starts_with "/api/" "/api/users" && contains "local" "a.localhost" && lower_eq "DeV" "dev")
    ≡ true
unfolding starts_with contains lower_eq
prefix_test = refl

number_test : (starts_with_numbers "10.0.0.1:80" && not (starts_with_numbers "10a.b")) ≡ true
unfolding starts_with_numbers
number_test = refl
