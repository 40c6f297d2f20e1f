-- ===== src/Manifest/Document.antt =====
-- The parts of a document of hub/manifest.py, written and read.
use qkt_data_hub.Prelude.{
  ℕ, Bool, Option, none, some, List, [], ◌∷◌, map, Result, ok, err, ◌>>=◌, key_error, type_error,
}
use qkt_data_hub.Prelude.Int.{pos}
use qkt_data_hub.Prelude.Order.{nat_ord}
use qkt_data_hub.Prelude.Text.{Text, text_eq, text_ord}
use qkt_data_hub.Prelude.Dict.{Dict, lookup, text_key}
use qkt_data_hub.Schema.{or_raise}
use qkt_data_hub.Schema.Document.{
  Doc, null, bool, int, string, sequence, mapping, Docs, nil, cons, Entries, end, entry, items,
  entries,
}

-- `WindowEntry`
pub record WindowEntry : Type 0 where
  pub from_day : Text
  pub to_day : Text
  pub file : Text
  pub sha256 : Text
  pub records : ℕ
  pub raw_deps : List Text

-- `FieldEntry`
pub record FieldEntry : Type 0 where
  pub name : Text
  pub type : Text
  pub unit : Text
  pub values : List Text
  pub null_policy : Text
  pub derived : Text
  pub strategy : Bool

-- `DatasetManifest`
pub record DatasetManifest : Type 0 where
  pub schema_hash : Text
  pub schema_path : Text
  pub scope_kind : Text
  pub key : List Text
  pub fields : List FieldEntry
  pub last_seq : ℕ
  pub last_known_at : Option ℕ
  pub windows : List WindowEntry

-- `Manifest`
pub record Manifest : Type 0 where
  pub v : ℕ
  pub generated_at : ℕ
  pub datasets : Dict Text DatasetManifest

-- `MANIFEST_VERSION`
abbrev pub manifest_version : ℕ
manifest_version = 1

abbrev pub docs : List Doc → Docs
docs [] = nil
docs (d ∷ l) = cons d (docs l)

abbrev pub object : Dict Text Doc → Entries
object [] = end
object ((k, d) ∷ l) = entry k d (object l)

abbrev pub list_of : {A : Type 0} → (A → Doc) → List A → Doc
list_of f l = sequence (docs (map f l))

abbrev pub nat_doc : ℕ → Doc
nat_doc n = int (pos n)

abbrev pub optional_doc : Option ℕ → Doc
optional_doc none = null
optional_doc (some n) = nat_doc n

-- raw[k]
unfoldable pub item : Text → Dict Text Doc → Result Doc
unfolding or_raise lookup text_eq
item k raw = or_raise key_error (lookup k raw)

-- raw.get(k, default)
unfoldable pub item_or : Text → Doc → Dict Text Doc → Doc
unfolding lookup text_eq
item_or k default raw = elim (lookup k raw) [ none ↦ default | some d ↦ d ]

abbrev pub text_of : Doc → Result Text
text_of (string s) = ok s
text_of _ = err type_error

abbrev pub bool_of : Doc → Result Bool
bool_of (bool b) = ok b
bool_of _ = err type_error

abbrev pub nat_of : Doc → Result ℕ
nat_of (int (pos n)) = ok n
nat_of _ = err type_error

abbrev pub optional_of : Doc → Result (Option ℕ)
optional_of null = ok none
optional_of (int (pos n)) = ok (some n)
optional_of _ = err type_error

abbrev pub mapping_of : Doc → Result (Dict Text Doc)
mapping_of (mapping es) = ok (entries es)
mapping_of _ = err type_error

module _ {A : Type 0} (read : Doc → Result A) where
  abbrev pub each_of : List Doc → Result (List A)
  each_of [] = ok []
  each_of (d ∷ l) = do a ← read d; rest ← each_of l; ok (a ∷ rest)

  abbrev pub tuple_of : Doc → Result (List A)
  tuple_of (sequence ds) = each_of (items ds)
  tuple_of _ = err type_error

  -- the values of a document, under their keys
  abbrev pub values_of : Dict Text Doc → Result (Dict Text A)
  values_of [] = ok []
  values_of ((k, d) ∷ l) = do a ← read d; rest ← values_of l; ok ((k, a) ∷ rest)
