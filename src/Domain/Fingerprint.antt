-- ===== src/Domain/Fingerprint.antt =====
-- internal/domain/fingerprint.go. Decoding and encoding JSON and SHA-256 are Go's libraries: they are
-- the fields of `Codec`, an argument of what uses them.
pub mod Theorems
use watchkeeper.Prelude.{String, str_append, str_eq, if◌then◌else◌, Bool}

-- What `decoder.Decode` gives and `json.Marshal` takes; the last two are the Go struct, whose fields
-- keep their order, and the `json.RawMessage`.
mutual
  pub data Json : Type 0 where
    null : Json
    boolean : Bool → Json
    number : String → Json
    text : String → Json
    array : Items → Json
    object : Fields → Json
    structure : Fields → Json
    raw_message : String → Json

  pub data Items : Type 0 where
    nil : Items
    cons : Json → Items → Items

  pub data Fields : Type 0 where
    end : Fields
    field : String → Json → Fields → Fields

-- What one call of `decoder.Decode` meets: a value and the input that is left, the end of the input
-- (`io.EOF`), or an error with its message.
pub data Decoded : Type 0 where
  value : Json → String → Decoded
  end_of_input : Decoded
  syntax_error : String → Decoded

-- A text, or the message of an error.
pub data Encoded : Type 0 where
  encoded : String → Encoded
  failed : String → Encoded

pub record Codec : Type 0 where
  pub decode : String → Decoded
  pub marshal : Json → Encoded
  -- the hexadecimal digits of the SHA-256 sum
  pub sha256_hex : String → String

abbrev canonicalized : Encoded → Encoded
canonicalized (encoded out) = encoded out
canonicalized (failed m) = failed (str_append "canonicalize JSON: " m)

abbrev after_value : Codec → Json → Decoded → Encoded
after_value c v (value w rest) = failed "multiple JSON values are not allowed"
after_value c v (syntax_error m) = failed (str_append "decode trailing JSON: " m)
after_value c v end_of_input = canonicalized (c.marshal v)

abbrev decoded_value : Codec → Decoded → Encoded
decoded_value c (value v rest) = after_value c v (c.decode rest)
decoded_value c end_of_input = failed "decode JSON: EOF"
decoded_value c (syntax_error m) = failed (str_append "decode JSON: " m)

unfoldable pub canonical_json : Codec → String → Encoded
canonical_json c raw =
    if str_eq raw "" then failed "JSON value is required" else decoded_value c (c.decode raw)

abbrev hashed : Codec → Encoded → Encoded
hashed c (encoded out) = encoded (c.sha256_hex out)
hashed c (failed m) = failed m

-- The value that names a request: the service, the action and the canonical JSON of the request.
unfoldable pub request_value : String → String → String → Json
request_value target_service action canonical = structure (
    field "target_service" (text target_service)
      (field "action" (text action) (field "request" (raw_message canonical) end)))

abbrev request_hashed : Codec → String → String → Encoded → Encoded
request_hashed c target_service action (encoded canonical) =
    hashed c (c.marshal (request_value target_service action canonical))
request_hashed c target_service action (failed m) = failed m

unfoldable pub fingerprint : Codec → String → String → String → Encoded
unfolding canonical_json
fingerprint c target_service action request =
    request_hashed c target_service action (canonical_json c request)

unfoldable pub receipt_fingerprint : Codec → String → Encoded
unfolding canonical_json
receipt_fingerprint c receipt = hashed c (canonical_json c receipt)
