-- ===== src/Schema/Document.antt =====
-- What hub/simpleyaml.py makes of a document, or json.loads of the manifest.
use qkt_data_hub.Prelude.{
  zero, suc, Bool, true, false, Option, none, some, List, [], ◌∷◌, Result, ok, err, schema_error,
}
use qkt_data_hub.Prelude.Int.{ℤ, pos, negsuc}
use qkt_data_hub.Prelude.Text.{Text}
use qkt_data_hub.Prelude.Dict.{Dict}

-- A float stands as the text that `str` gives of it, and whether it is zero.
mutual
  pub data Doc : Type 0 where
    null : Doc
    bool : Bool → Doc
    int : ℤ → Doc
    float : Text → Bool → Doc
    string : Text → Doc
    sequence : Docs → Doc
    mapping : Entries → Doc

  pub data Docs : Type 0 where
    nil : Docs
    cons : Doc → Docs → Docs

  pub data Entries : Type 0 where
    end : Entries
    entry : Text → Doc → Entries → Entries

abbrev pub items : Docs → List Doc
items nil = []
items (cons d ds) = d ∷ items ds

abbrev pub entries : Entries → Dict Text Doc
entries end = []
entries (entry k d es) = (k, d) ∷ entries es

-- bool(d)
abbrev pub is_true : Doc → Bool
is_true null = false
is_true (bool b) = b
is_true (int (pos n)) = elim n [ zero ↦ false | suc m ↦ true ]
is_true (int (negsuc n)) = true
is_true (float s is_zero) = elim is_zero [ true ↦ false | false ↦ true ]
is_true (string []) = false
is_true (string (c ∷ s)) = true
is_true (sequence nil) = false
is_true (sequence (cons d ds)) = true
is_true (mapping end) = false
is_true (mapping (entry k d es)) = true

-- `_require_mapping`
abbrev pub require_mapping : Doc → Result (Dict Text Doc)
require_mapping (mapping es) = ok (entries es)
require_mapping _ = err schema_error

-- d.get(k, "") that has to be a string
abbrev pub string_or : Text → Option Doc → Result Text
string_or default none = ok default
string_or default (some (string s)) = ok s
string_or default (some _) = err schema_error

abbrev pub require_string : Doc → Result Text
require_string (string s) = ok s
require_string _ = err schema_error

abbrev pub bool_or : Bool → Option Doc → Result Bool
bool_or default none = ok default
bool_or default (some (bool b)) = ok b
bool_or default (some _) = err schema_error
