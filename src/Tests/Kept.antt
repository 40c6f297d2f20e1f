-- ===== src/Tests/Kept.antt =====
-- A compile that keeps the window of November, and a manifest written and read back.
use qkt_data_hub.Prelude.{
  ◌≡◌, refl, some, Bool, true, ◌&&◌, ◌==◌, ◌/◌, List, [], ◌∷◌, Result, ok, All, arith,
}
use qkt_data_hub.Prelude.Text.{Text, codes, text_eq, text_lt}
use qkt_data_hub.Prelude.Dict.{insert}
use qkt_data_hub.Record.{Record}
use qkt_data_hub.Record.Names.{elem}
use qkt_data_hub.Calendar.{civil, day_str, date_text, ms_per_day}
use qkt_data_hub.Schema.Document.{Doc}
use qkt_data_hub.Compiler.{bounds_of, in_window}
use qkt_data_hub.Compiler.Months.{in_window-dated}
use qkt_data_hub.Compiler.Cycle.{
  window_of, unchanged_windows, kept_entries, is_kept, first_changed, count_of, last_seq_of,
}
use qkt_data_hub.Compiler.Cycle.Kept.{IsUnchanged, unchanged_windows-IsUnchanged}
use qkt_data_hub.Manifest.{WindowEntry, DatasetManifest, Manifest, document, save, load}
use qkt_data_hub.Manifest.RoundTrip.{settled, load-save}
use qkt_data_hub.Tests.Samples.{fact}
use qkt_data_hub.Tests.Compiled.{november, pair_of_facts}

november-bounds_of : bounds_of 2023 11 ≡ ok november
unfolding bounds_of
november-bounds_of = refl

in_window-dated_example : in_window november (fact (codes "a") 1 1_700_000_000_000 0 []) ≡ (
    (civil (1_700_000_000_000 / ms_per_day)).year == 2023
    && (civil (1_700_000_000_000 / ms_per_day)).month == 11)
in_window-dated_example =
    in_window-dated 2023 11 (fact (codes "a") 1 1_700_000_000_000 0 []) november november-bounds_of

abbrev entry : WindowEntry
entry = record {
  from_day = codes "2023-11-01";
  to_day = codes "2023-11-30";
  file = codes "a.qkh";
  sha256 = codes "5e";
  records = 2;
  raw_deps = [];
}

abbrev previous : DatasetManifest
previous = record {
  schema_hash = codes "sha256:1";
  schema_path = codes "datasets/rates.x.yaml";
  scope_kind = codes "all";
  key = codes "effective_at" ∷ [];
  fields = [];
  last_seq = 1;
  last_known_at = some 1_700_000_000_000;
  windows = entry ∷ [];
}

-- a record of December follows
abbrev records : List Record
records =
    record (fact (codes "c") 1 1_702_000_000_000 1_600_000_000_000 []) { seq = 2 } ∷ pair_of_facts

abbrev asked : List Text
asked = codes "2023-11" ∷ codes "2023-12" ∷ []

abbrev there : Text → Bool
there file = true

november-kept :
    unchanged_windows there records asked (codes "sha256:1") (some previous)
    ≡ (codes "2023-11", entry) ∷ []
unfolding unchanged_windows text_eq kept_entries is_kept first_changed count_of last_seq_of elem
    window_of day_str date_text civil text_lt insert
november-kept = refl

unchanged_windows-IsUnchanged_example :
    All
      (IsUnchanged there records asked previous)
      (unchanged_windows there records asked (codes "sha256:1") (some previous))
unchanged_windows-IsUnchanged_example =
    unchanged_windows-IsUnchanged there records asked
      (omega arith, (omega arith, (omega arith, tt))) (codes "sha256:1") previous

abbrev manifest : Manifest
manifest = record { v = 1; generated_at = 7; datasets = (codes "rates.x", previous) ∷ [] }

abbrev written : Doc → Text
written d = codes "{}"

abbrev parsed : Text → Result Doc
parsed bytes = ok (document manifest)

load-save_example : load parsed (some (save written manifest)) ≡ ok (settled manifest)
load-save_example = load-save written parsed manifest refl
