-- ===== src/Json.antt =====
-- JSON values and `json.RawMessage`, as encoding/json shows them to the program.
-- A number is kept as the text of its literal, as `json.Number` does.
use req_flow.Prelude.{ℕ, zero, suc, String, Bool, true, false}

mutual
  pub data Json : Type 0 where
    null : Json
    boolean : Bool → Json
    number : String → Json
    text : String → Json
    array : Items → Json
    object : Members → Json

  pub data Items : Type 0 where
    nil : Items
    cons : Json → Items → Items

  pub data Members : Type 0 where
    end : Members
    member : String → Json → Members → Members

-- The bytes of a `json.RawMessage`, by what the program can learn of them: so many bytes of white
-- space, one JSON document, or anything else.
pub data RawMessage : Type 0 where
  blank : ℕ → RawMessage
  document : Json → RawMessage
  malformed : RawMessage

-- `len(raw) == 0`
abbrev pub is_absent : RawMessage → Bool
is_absent (blank zero) = true
is_absent (blank (suc n)) = false
is_absent (document j) = false
is_absent malformed = false

-- `len(bytes.TrimSpace(raw)) == 0`
abbrev pub is_white : RawMessage → Bool
is_white (blank n) = true
is_white (document j) = false
is_white malformed = false

-- `json.Valid(raw)`
abbrev pub is_valid_json : RawMessage → Bool
is_valid_json (blank n) = false
is_valid_json (document j) = true
is_valid_json malformed = false
