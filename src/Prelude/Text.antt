-- ===== src/Prelude/Text.antt =====
-- Texts: Go's `string` as a sequence of code points, `strings.TrimSpace`, the identifier grammars and
-- the decimal numbers that `%d` prints.
use Prim.Native.Nat.{ℕ, zero, suc, ◌/◌, ◌%◌}
use Prim.Native.Char.{code}
use Prim.Native.String.{String, count, compare as compare_text, ◌++◌ as text_append}
use mathlib.Core.Path.{◌≡◌, refl}
use mathlib.Core.Logic.{◌↔◌}
use mathlib.Core.Bool.{Bool, true, false, ◌&&◌, ◌||◌}
pub use text.Mathlib.Text.{◌==◌}
use text.Mathlib.Text.{is_lt}
use req_flow.Prelude.Tests.{leb, eqb, if◌then◌else◌}

-- `a + b` on Go strings.
infixr 65 ◌⧺◌
abbrev pub ◌⧺◌ : String → String → String
◌⧺◌ = text_append

-- `a < b` on Go strings: by bytes, which for UTF-8 is by code points.
abbrev pub lt_text : String → String → Bool
lt_text a b = is_lt (compare_text a b)

-- `s == ""`
abbrev pub is_blank : String → Bool
is_blank String.[] = true
is_blank (String.◌∷◌ c s) = false

pub is_blank_iff : (s : String) → (is_blank s ≡ true) ↔ (s ≡ "")
is_blank_iff String.[] = ((λ h. refl), (λ h. refl))
is_blank_iff (String.◌∷◌ c s) = ((λ h. cc), (λ h. cc))

-- `unicode.IsSpace`.
is_space : ℕ → Bool
is_space c =
    (leb 9 c && leb c 13)
    || eqb c 32
    || eqb c 0x85
    || eqb c 0xA0
    || eqb c 0x1680
    || (leb 0x2000 c && leb c 0x200a)
    || eqb c 0x2028
    || eqb c 0x2029
    || eqb c 0x202f
    || eqb c 0x205f
    || eqb c 0x3000

trim_left : String → String
trim_left String.[] = String.[]
trim_left (String.◌∷◌ c s) = if is_space (code c) then trim_left s else String.◌∷◌ c s

trim_right : String → String
trim_right String.[] = String.[]
trim_right (String.◌∷◌ c s) =
    let rest = trim_right s in
    if is_space (code c) && is_blank rest then String.[] else String.◌∷◌ c rest

-- `strings.TrimSpace`.
unfoldable pub trim_space : String → String
unfolding is_space trim_left trim_right
trim_space s = trim_right (trim_left s)

-- `strings.HasPrefix`.
unfoldable pub has_prefix : String → String → Bool
has_prefix s String.[] = true
has_prefix String.[] (String.◌∷◌ c prefix) = false
has_prefix (String.◌∷◌ d s) (String.◌∷◌ c prefix) = eqb (code d) (code c) && has_prefix s prefix

is_lower : ℕ → Bool
is_lower c = leb b'a' c && leb c b'z'

is_digit : ℕ → Bool
is_digit c = leb b'0' c && leb c b'9'

all_chars : (ℕ → Bool) → String → Bool
all_chars p String.[] = true
all_chars p (String.◌∷◌ c s) = p (code c) && all_chars p s

is_identifier_char : ℕ → Bool
is_identifier_char c = is_lower c || is_digit c || eqb c b'_'

is_kind_char : ℕ → Bool
is_kind_char c = is_lower c || is_digit c || eqb c b'_' || eqb c b'.' || eqb c b'-'

-- A lower-case letter, then at most `limit` characters that `p` takes.
matches_name : (ℕ → Bool) → ℕ → String → Bool
matches_name p limit String.[] = false
matches_name p limit (String.◌∷◌ c s) = is_lower (code c) && all_chars p s && leb (count s) limit

-- `^[a-z][a-z0-9_]{0,62}$`
unfoldable pub valid_identifier : String → Bool
unfolding is_lower is_digit all_chars is_identifier_char matches_name
valid_identifier s = matches_name is_identifier_char 62 s

-- `^[a-z][a-z0-9_.-]{0,126}$`
unfoldable pub valid_capability_kind : String → Bool
unfolding is_lower is_digit all_chars is_kind_char matches_name
valid_capability_kind s = matches_name is_kind_char 126 s

-- One decimal digit.
digit_text : ℕ → String
digit_text n =
    if eqb n 0
    then "0"
    else if eqb n 1
    then "1"
    else if eqb n 2
    then "2"
    else if eqb n 3
    then "3"
    else if eqb n 4
    then "4"
    else if eqb n 5
    then "5"
    else if eqb n 6
    then "6"
    else if eqb n 7
    then "7"
    else if eqb n 8
    then "8"
    else "9"

-- Decimal digits; `n` itself is fuel enough, since a division by ten makes a positive number smaller.
decimal_from : ℕ → ℕ → String → String
decimal_from zero n out = out
decimal_from (suc fuel) n out =
    let more = decimal_from fuel (n / 10) (digit_text (n % 10) ⧺ out) in
    if eqb n 0 then out else more

-- What `%d` prints for a number that is not negative.
unfoldable pub decimal : ℕ → String
unfolding digit_text decimal_from
decimal n = if eqb n 0 then "0" else decimal_from n n ""

-- The path of an element of a sequence, `fmt.Sprintf("%s[%d]", …)`.
unfoldable pub element_path : String → ℕ → String
unfolding decimal
element_path base i = base ⧺ "[" ⧺ decimal i ⧺ "]"

trims : trim_space "  ab c\n" ≡ "ab c"
unfolding trim_space
trims = refl

path_of_element : element_path "nodes" 120 ≡ "nodes[120]"
unfolding element_path
path_of_element = refl

identifiers :
    (valid_identifier "order_id2" ≡ true)
    × (valid_identifier "Order" ≡ false)
    × (valid_identifier "2nd" ≡ false)
unfolding valid_identifier
identifiers = (refl, refl, refl)
