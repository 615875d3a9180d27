-- ===== src/Runtime.antt =====
-- What the program takes from Python's standard library and does not implement: hashing, Unicode
-- normalisation and JSON. They are parameters of every definition that calls them.
use nexus_vector_keeperhub.Prelude.{ℕ, String, Bool, Option, ◌≡◌, true}
use nexus_vector_keeperhub.Prelude.Ids.{codes, full_match}

-- JSON material as the program builds it for `json.dumps(..., sort_keys=True)`: an object is given
-- by its members in the order of their keys. `number n` is n, and `negative n` is -n - 1.
mutual
  pub data Json : Type 0 where
    text : String → Json
    number : ℕ → Json
    negative : ℕ → Json
    boolean : Bool → Json
    null : Json
    array : Items → Json
    object : Members → Json

  pub data Items : Type 0 where
    end : Items
    item : Json → Items → Items

  pub data Members : Type 0 where
    close : Members
    member : String → Json → Members → Members

pub record Runtime : Type 0 where
  -- `hashlib.sha256(material).hexdigest()`
  pub sha256 : String → String
  -- `unicodedata.normalize("NFC", value)`
  pub nfc : String → String
  -- `format(Decimal(value), "f")` where `Decimal` takes the text for a number that is finite and
  -- positive
  pub positive_decimal : String → Option String
  -- `value.strip()`
  pub strip : String → String
  -- `json.dumps(value, ensure_ascii=False, separators=(",", ":"), sort_keys=True).encode("utf-8")`
  pub dumps : Json → String

-- A SHA-256 digest is written as 64 lower-case hexadecimal digits.
abbrev pub HashIsHex : Runtime → Type 0
HashIsHex rt = (m : String) → full_match (codes "") 64 (codes (rt.sha256 m)) ≡ true

-- Normal form C is idempotent.
abbrev pub NfcIsIdempotent : Runtime → Type 0
NfcIsIdempotent rt = (s : String) → rt.nfc (rt.nfc s) ≡ rt.nfc s
