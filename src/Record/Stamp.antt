-- ===== src/Record/Stamp.antt =====
-- `identity_payload`, `compute_id`, `payload_hash`, `with_id` and `create` of hubread/record.py.
-- `sha256` is hashlib's: the hex digest of a text's UTF-8 bytes.
use qkt_data_hub.Prelude.{
  >>=-eq-ok, ok_inj, sym, ℕ, ◌≡◌, refl, Option, none, some, [], ◌∷◌, ◌++◌, Result, ok, ◌>>◌,
}
use qkt_data_hub.Prelude.Text.{Text, codes}
use qkt_data_hub.Prelude.Dict.{Dict}
use qkt_data_hub.Prelude.Int.{pos}
use qkt_data_hub.Record.{Record, Availability, observed, published, derived, text, int}
use qkt_data_hub.Record.Json.{Json, leaf, object, canonical_json, canonical_payload}
use qkt_data_hub.Record.Checks.{post_init, IsValid}

unfoldable pub availability_text : Availability → Text
availability_text observed = codes "observed"
availability_text published = codes "published"
availability_text derived = codes "derived"

abbrev number : ℕ → Json
number n = leaf (int (pos n))

abbrev string : Text → Json
string s = leaf (text s)

-- an entry that is there only if the value is
optional_number : Text → Option ℕ → Dict Text Json
optional_number k none = []
optional_number k (some n) = (k, number n) ∷ []

optional_string : Text → Option Text → Dict Text Json
optional_string k none = []
optional_string k (some s) = (k, string s) ∷ []

unfoldable pub identity_payload : Record → Dict Text Json
unfolding availability_text optional_number optional_string
identity_payload r =
    (codes "v", number r.v)
    ∷ (codes "dataset", string r.dataset)
    ∷ (codes "scope", string r.scope)
    ∷ (codes "key", string r.key)
    ∷ (codes "revision", number r.revision)
    ∷ (codes "known_at", number r.known_at)
    ∷ (codes "effective_at", number r.effective_at)
    ∷ (codes "availability", string (availability_text r.availability))
    ∷ (codes "source", string r.source)
    ∷ (codes "source_version", string r.source_version)
    ∷ (codes "parser", string r.parser)
    ∷ (codes "fields", object r.fields)
    ∷ (optional_number (codes "period_start") r.period_start
        ++ (optional_number (codes "period_end") r.period_end
            ++ optional_string (codes "raw_ref") r.raw_ref))

module _ (sha256 : Text → Text) where
  unfoldable pub compute_id : Record → Text
  unfolding identity_payload canonical_json
  compute_id r = codes "sha256:" ++ sha256 (canonical_json (identity_payload r))

  unfoldable pub payload_hash : Record → Text
  payload_hash r = sha256 (canonical_payload r.fields)

  -- `replace(id=…)` builds the record anew; the checks read nothing that it changes.
  unfoldable pub with_id : Record → Record
  with_id r = record r { id = compute_id r }

  -- `Record.create`: the checks, then the id
  unfoldable pub create : Record → Result Record
  create r = do post_init r; ok (with_id r)

  pub with_id-IsValid : (r : Record) → IsValid r → IsValid (with_id r)
  unfolding with_id post_init
  with_id-IsValid r h = h

  -- The id addresses the content: stamping a new `seq` leaves it as it is.
  pub compute_id-seq : (r : Record) (n : ℕ) → compute_id (record r { seq = n }) ≡ compute_id r
  unfolding compute_id identity_payload
  compute_id-seq r n = refl

  pub create-eq_ok : (r : Record) {made : Record} → create r ≡ ok made → made ≡ with_id r
  unfolding create
  create-eq_ok r h = let (u, p, q) = >>=-eq-ok (post_init r) _ h in sym (ok_inj q)
