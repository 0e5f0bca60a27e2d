-- ===== src/Domain/Fingerprint/Theorems.antt =====
-- Fingerprints do not depend on how the JSON is written.
use watchkeeper.Prelude.{String, ◌≡◌, refl, str_eq, false, ap, ◌∙◌, sym}
use watchkeeper.Domain.Fingerprint.{
  Codec, Json, value, end_of_input, canonical_json, fingerprint, receipt_fingerprint, canonicalized,
  hashed, request_hashed,
}

-- The text is one JSON value, `v`, and nothing after it.
pub record IsOneValue (c : Codec) (s : String) (v : Json) : Type 0 where
  pub non_empty : str_eq s "" ≡ false
  pub rest : String
  pub decoded : c.decode s ≡ value v rest
  pub ended : c.decode rest ≡ end_of_input

canonical_json-value :
    (c : Codec) (s : String) (v : Json)
    → IsOneValue c s v
    → canonical_json c s ≡ canonicalized (c.marshal v)
unfolding canonical_json
canonical_json-value c s v h = rw (h.non_empty, h.decoded, h.ended) refl

-- Two texts of one JSON value, however they are written, have one canonical form, one fingerprint as
-- receipts, and one as requests to the same service and action.
pub fingerprint-canonical :
    (c : Codec) (s t : String) (v : Json)
    → IsOneValue c s v
    → IsOneValue c t v
    → (canonical_json c s ≡ canonical_json c t)
      × (receipt_fingerprint c s ≡ receipt_fingerprint c t)
      × ((service action : String)
          → fingerprint c service action s ≡ fingerprint c service action t)
unfolding receipt_fingerprint fingerprint
fingerprint-canonical c s t v h k =
    (same, ap (hashed c) same, λ service action. ap (request_hashed c service action) same)
  where
    same : canonical_json c s ≡ canonical_json c t
    same = canonical_json-value c s v h ∙ sym (canonical_json-value c t v k)
