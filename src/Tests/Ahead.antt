-- ===== src/Tests/Ahead.antt =====
-- The intervals around the events ahead, and a range over a snapshot, on a concrete journal.
use qkt_data_hub.Prelude.{◌≤◌, ◌+◌, ℕ, ◌≡◌, refl, Result, ok, List, [], ◌∷◌, All, Among, arith}
use qkt_data_hub.Prelude.Int.{ℤ, int_ord}
use qkt_data_hub.Prelude.Order.{pair_ord}
use qkt_data_hub.Prelude.Text.{Text, codes, text_eq}
use qkt_data_hub.Prelude.Dict.{values}
use qkt_data_hub.Prelude.Sort.{IsSorted, sort_by}
use qkt_data_hub.Record.{Record}
use qkt_data_hub.Reader.{as_of, windows, read_range}
use qkt_data_hub.Reader.Windows.{IsEvent, IsAround, windows-IsEvent}
use qkt_data_hub.Reader.Range.{WindowInfo, range, decode_window}
use qkt_data_hub.Reader.Range.Compiled.{IsFaithful, range-read_range}
use qkt_data_hub.Tests.Samples.{cautious, first, second, plain}

abbrev journal : List Record
journal = second ∷ first ∷ []

abbrev now : ℕ
now = 1_000_000_000_500

abbrev spans : List (ℤ × ℤ)
spans = windows cautious journal (codes "USD") now 200_000 60_000

windows-IsEvent_example :
    IsSorted {A = ℤ × ℤ} (λ i. i) spans
    × (All
          (λ i.
            (r : Record) × (IsEvent cautious journal (codes "USD") now 200_000 60_000 r)
            × (IsAround cautious journal (codes "USD") now 200_000 60_000 r i))
          spans
        × ((r : Record)
            → Among r (values (as_of cautious journal (codes "USD") now))
            → now ≤ r.effective_at
            → r.effective_at ≤ now + 200_000
            → (i : ℤ × ℤ) × (Among i spans)
              × (IsAround cautious journal (codes "USD") now 200_000 60_000 r i)))
windows-IsEvent_example = windows-IsEvent cautious journal (codes "USD") now 200_000 60_000

-- a snapshot of the first record's window
abbrev window : WindowInfo
window = record {
  file = codes "a.qkh";
  sha256 = codes "a.qkh";
  from_ms = 1_000_000_000_000;
  to_ms = 1_000_000_100_000;
}

abbrev bytes_of : Text → Result Text
bytes_of file = ok file

abbrev decoded : Text → Result (List Record)
decoded bytes = ok (first ∷ [])

window-IsFaithful : IsFaithful bytes_of plain decoded journal window
unfolding decode_window read_range sort_by text_eq
window-IsFaithful = refl

range-read_range_example :
    range bytes_of plain decoded journal (window ∷ []) 1_000_000_000_000 1_000_000_300_000
    ≡ ok (read_range journal 1_000_000_000_000 1_000_000_300_000)
range-read_range_example =
    range-read_range bytes_of plain decoded journal (window ∷ []) 1_000_000_000_000
      1_000_000_300_000 (omega arith) (omega arith, (tt, tt)) (window-IsFaithful, tt)
