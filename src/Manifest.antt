-- ===== src/Manifest.antt =====
-- hub/manifest.py: what the hub has compiled and where, as a document and back. A value that a document
-- has of another type than the entry declares, which the source would carry along, is a `type_error`
-- here.
use qkt_data_hub.Prelude.{
  ℕ, Bool, Option, none, some, List, [], ◌∷◌, map, Result, ok, err, ◌>>=◌, key_error, type_error,
}
use qkt_data_hub.Prelude.Int.{ℤ, pos, negsuc}
use qkt_data_hub.Prelude.Order.{nat_ord}
use qkt_data_hub.Prelude.Text.{Text, codes, text_eq, text_ord}
use qkt_data_hub.Prelude.Dict.{Dict, lookup, text_key}
use qkt_data_hub.Prelude.Sort.{sort_by}
use qkt_data_hub.Schema.{or_raise}
use qkt_data_hub.Schema.Document.{
  Doc, null, bool, int, string, sequence, mapping, Docs, nil, cons, Entries, end, entry, items,
  entries,
}
pub mod Document
pub mod RoundTrip
pub use qkt_data_hub.Manifest.Document.{
  docs, object, list_of, nat_doc, optional_doc, text_of, bool_of, nat_of, optional_of, mapping_of,
  each_of, tuple_of, values_of,
}
unfoldable pub use qkt_data_hub.Manifest.Document.{item, item_or}

-- `WindowEntry`
pub record WindowEntry : Type 0 where
  pub from_day : Text
  pub to_day : Text
  pub file : Text
  pub sha256 : Text
  pub records : ℕ
  pub raw_deps : List Text

-- `FieldEntry`
pub record FieldEntry : Type 0 where
  pub name : Text
  pub type : Text
  pub unit : Text
  pub values : List Text
  pub null_policy : Text
  pub derived : Text
  pub strategy : Bool

-- `DatasetManifest`
pub record DatasetManifest : Type 0 where
  pub schema_hash : Text
  pub schema_path : Text
  pub scope_kind : Text
  pub key : List Text
  pub fields : List FieldEntry
  pub last_seq : ℕ
  pub last_known_at : Option ℕ
  pub windows : List WindowEntry

-- `Manifest`
pub record Manifest : Type 0 where
  pub v : ℕ
  pub generated_at : ℕ
  pub datasets : Dict Text DatasetManifest

-- `MANIFEST_VERSION`
abbrev pub manifest_version : ℕ
manifest_version = 1

-- `WindowEntry.to_dict`
unfoldable pub window_to_dict : WindowEntry → Doc
window_to_dict w = mapping (
    object (
      (codes "from", string w.from_day)
      ∷ (codes "to", string w.to_day)
      ∷ (codes "file", string w.file)
      ∷ (codes "sha256", string w.sha256)
      ∷ (codes "records", nat_doc w.records)
      ∷ (codes "raw_deps", list_of string w.raw_deps)
      ∷ []))

-- `WindowEntry.from_dict`
unfoldable pub window_from_dict : Doc → Result WindowEntry
unfolding item item_or
window_from_dict d = do
  raw ← mapping_of d
  from_day ← item (codes "from") raw >>= text_of
  to_day ← item (codes "to") raw >>= text_of
  file ← item (codes "file") raw >>= text_of
  sha256 ← item (codes "sha256") raw >>= text_of
  records ← item (codes "records") raw >>= nat_of
  raw_deps ← tuple_of text_of (item_or (codes "raw_deps") (sequence nil) raw)
  ok (record {
    from_day = from_day;
    to_day = to_day;
    file = file;
    sha256 = sha256;
    records = records;
    raw_deps = raw_deps;
  })

-- `FieldEntry.to_dict`
unfoldable pub field_to_dict : FieldEntry → Doc
field_to_dict f = mapping (
    object (
      (codes "name", string f.name)
      ∷ (codes "type", string f.type)
      ∷ (codes "unit", string f.unit)
      ∷ (codes "values", list_of string f.values)
      ∷ (codes "null_policy", string f.null_policy)
      ∷ (codes "derived", string f.derived)
      ∷ (codes "strategy", bool f.strategy)
      ∷ []))

-- `FieldEntry.from_dict`
unfoldable pub field_from_dict : Doc → Result FieldEntry
unfolding item item_or
field_from_dict d = do
  raw ← mapping_of d
  name ← item (codes "name") raw >>= text_of
  type ← item (codes "type") raw >>= text_of
  unit ← item (codes "unit") raw >>= text_of
  values ← tuple_of text_of (item_or (codes "values") (sequence nil) raw)
  null_policy ← item (codes "null_policy") raw >>= text_of
  derived ← text_of (item_or (codes "derived") (string []) raw)
  strategy ← item (codes "strategy") raw >>= bool_of
  ok (record {
    name = name;
    type = type;
    unit = unit;
    values = values;
    null_policy = null_policy;
    derived = derived;
    strategy = strategy;
  })

abbrev pub by_day : List WindowEntry → List WindowEntry
by_day = sort_by (λ w. w.from_day)

-- `DatasetManifest.to_dict`
unfoldable pub dataset_to_dict : DatasetManifest → Doc
unfolding window_to_dict field_to_dict sort_by
dataset_to_dict m = mapping (
    object (
      (codes "schema_hash", string m.schema_hash)
      ∷ (codes "schema_path", string m.schema_path)
      ∷ (codes "scope_kind", string m.scope_kind)
      ∷ (codes "key", list_of string m.key)
      ∷ (codes "fields", list_of field_to_dict m.fields)
      ∷ (codes "last_seq", nat_doc m.last_seq)
      ∷ (codes "last_known_at", optional_doc m.last_known_at)
      ∷ (codes "windows", list_of window_to_dict (by_day m.windows))
      ∷ []))

-- `DatasetManifest.from_dict`
unfoldable pub dataset_from_dict : Doc → Result DatasetManifest
unfolding item item_or window_from_dict field_from_dict
dataset_from_dict d = do
  raw ← mapping_of d
  schema_hash ← item (codes "schema_hash") raw >>= text_of
  schema_path ← item (codes "schema_path") raw >>= text_of
  scope_kind ← item (codes "scope_kind") raw >>= text_of
  key ← tuple_of text_of (item_or (codes "key") (sequence nil) raw)
  fields ← tuple_of field_from_dict (item_or (codes "fields") (sequence nil) raw)
  last_seq ← nat_of (item_or (codes "last_seq") (nat_doc 0) raw)
  last_known_at ← optional_of (item_or (codes "last_known_at") null raw)
  windows ← tuple_of window_from_dict (item_or (codes "windows") (sequence nil) raw)
  ok (record {
    schema_hash = schema_hash;
    schema_path = schema_path;
    scope_kind = scope_kind;
    key = key;
    fields = fields;
    last_seq = last_seq;
    last_known_at = last_known_at;
    windows = windows;
  })

-- the document that `Manifest.save` writes, its datasets in the order of their names
unfoldable pub document : Manifest → Doc
unfolding dataset_to_dict sort_by
document m = mapping (
    object (
      (codes "v", nat_doc m.v)
      ∷ (codes "generated_at", nat_doc m.generated_at)
      ∷ (
        codes "datasets",
        mapping (object (map (λ e. (e.0, dataset_to_dict e.1)) (sort_by (λ e. e.0) m.datasets))),
      )
      ∷ []))

-- `Manifest.save` and `Manifest.load`, with json.dumps and json.loads; `none` is a file that is not there
unfoldable pub save : (Doc → Text) → Manifest → Text
unfolding document
save dumps m = dumps (document m)

unfoldable pub load : (Text → Result Doc) → Option Text → Result Manifest
unfolding item_or dataset_from_dict
load loads none = ok (record { v = manifest_version; generated_at = 0; datasets = [] })
load loads (some bytes) = do
  raw ← loads bytes >>= mapping_of
  v ← nat_of (item_or (codes "v") (nat_doc manifest_version) raw)
  generated_at ← nat_of (item_or (codes "generated_at") (nat_doc 0) raw)
  entries ← mapping_of (item_or (codes "datasets") (mapping end) raw)
  datasets ← values_of dataset_from_dict entries
  ok (record { v = v; generated_at = generated_at; datasets = datasets })
