-- ===== src/Manifest/RoundTrip.antt =====
-- What `Manifest.load` of hub/manifest.py makes of what `Manifest.save` wrote.
use qkt_data_hub.Prelude.{ℕ, ◌≡◌, refl, ap, some, none, Option, List, [], ◌∷◌, map, Result, ok}
use qkt_data_hub.Prelude.Order.{nat_ord}
use qkt_data_hub.Prelude.Text.{Text, text_eq, text_ord}
use qkt_data_hub.Prelude.Dict.{Dict, lookup, text_key}
use qkt_data_hub.Prelude.Sort.{sort_by}
use qkt_data_hub.Schema.Document.{Doc, string, items, entries}
use qkt_data_hub.Manifest.{
  WindowEntry, FieldEntry, DatasetManifest, Manifest, docs, object, list_of, optional_doc, item,
  text_of, optional_of, each_of, tuple_of, values_of, window_to_dict, window_from_dict,
  field_to_dict, field_from_dict, by_day, dataset_to_dict, dataset_from_dict, document, save, load,
}

items-docs : (l : List Doc) → items (docs l) ≡ l
items-docs [] = refl
items-docs (d ∷ l) = ap (λ l. d ∷ l) (items-docs l)

entries-object : (l : Dict Text Doc) → entries (object l) ≡ l
entries-object [] = refl
entries-object ((k, d) ∷ l) = ap (λ l. (k, d) ∷ l) (entries-object l)

optional_of-optional_doc : (o : Option ℕ) → optional_of (optional_doc o) ≡ ok o
optional_of-optional_doc none = refl
optional_of-optional_doc (some n) = refl

module _ {A : Type 0} (read : Doc → Result A) (write : A → Doc)
    (back : (a : A) → read (write a) ≡ ok a) where
  each_of-map : (l : List A) → each_of read (map write l) ≡ ok l
  each_of-map [] = refl
  each_of-map (a ∷ l) = rw (back a, each_of-map l) refl

  tuple_of-list_of : (l : List A) → tuple_of read (list_of write l) ≡ ok l
  tuple_of-list_of l = rw (items-docs (map write l)) (each_of-map l)

texts : (l : List Text) → tuple_of text_of (list_of string l) ≡ ok l
texts = tuple_of-list_of text_of string (λ s. refl)

window_from_dict-window_to_dict : (w : WindowEntry) → window_from_dict (window_to_dict w) ≡ ok w
unfolding window_from_dict window_to_dict item lookup text_eq
window_from_dict-window_to_dict w = rw (texts w.raw_deps) refl

field_from_dict-field_to_dict : (f : FieldEntry) → field_from_dict (field_to_dict f) ≡ ok f
unfolding field_from_dict field_to_dict item lookup text_eq
field_from_dict-field_to_dict f = rw (texts f.values) refl

abbrev pub in_order : DatasetManifest → DatasetManifest
in_order m = record m { windows = by_day m.windows }

dataset_from_dict-dataset_to_dict :
    (m : DatasetManifest) → dataset_from_dict (dataset_to_dict m) ≡ ok (in_order m)
unfolding dataset_from_dict dataset_to_dict item lookup text_eq
dataset_from_dict-dataset_to_dict m =
    rw
      (
        texts m.key,
        tuple_of-list_of field_from_dict field_to_dict field_from_dict-field_to_dict m.fields,
        optional_of-optional_doc m.last_known_at,
        tuple_of-list_of window_from_dict window_to_dict window_from_dict-window_to_dict
            (by_day m.windows),
      )
      refl

values_of-in_order :
    (l : Dict Text DatasetManifest)
    → values_of dataset_from_dict (map (λ e. (e.0, dataset_to_dict e.1)) l)
      ≡ ok (map (λ e. (e.0, in_order e.1)) l)
values_of-in_order [] = refl
values_of-in_order ((k, m) ∷ l) =
    rw (dataset_from_dict-dataset_to_dict m, values_of-in_order l) refl

-- the same, its datasets by name and the windows of each by day
abbrev pub settled : Manifest → Manifest
settled m = record m { datasets = map (λ e. (e.0, in_order e.1)) (sort_by (λ e. e.0) m.datasets) }

-- What `load` reads of a file that `save` wrote is the manifest, with its datasets in the order of their
-- names and the windows of each in the order of their first days. json.loads reads the document back
-- that json.dumps wrote.
pub load-save :
    (dumps : Doc → Text) (loads : Text → Result Doc) (m : Manifest)
    → loads (dumps (document m)) ≡ ok (document m)
    → load loads (some (save dumps m)) ≡ ok (settled m)
unfolding load save document item lookup text_eq
load-save dumps loads m h =
    rw
      (
        h,
        entries-object (map (λ e. (e.0, dataset_to_dict e.1)) (sort_by (λ e. e.0) m.datasets)),
        values_of-in_order (sort_by (λ e. e.0) m.datasets),
      )
      refl
