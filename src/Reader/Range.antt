-- ===== src/Reader/Range.antt =====
-- `range` of hubread/reader.py: a stretch of history from compiled snapshots where the manifest has
-- them, and from the journal for the rest.
use qkt_data_hub.Prelude.{
  ℕ, suc, ◌+◌, ◌-◌, Bool, true, false, ◌||◌, List, [], ◌∷◌, ◌++◌, keep, Result, ok, err, ◌>>=◌,
  ◌>>◌, require, store_error, leb, ltb, max, if◌then◌else◌,
}
use qkt_data_hub.Prelude.Order.{nat_ord, pair_ord}
use qkt_data_hub.Prelude.Text.{Text, text_eq, text_ord}
use qkt_data_hub.Prelude.Sort.{sort_by}
use qkt_data_hub.Record.{Record, sort_key}
use qkt_data_hub.Reader.{in_range, read_range}
pub mod Joined
pub mod Compiled
pub mod Snapshots

-- `_WindowInfo`, its days as their bounds
pub record WindowInfo : Type 0 where
  pub file : Text
  pub sha256 : Text
  pub from_ms : ℕ
  pub to_ms : ℕ

-- `read_bytes` reads a file below the root, and `decode` is the one of hubread/snapshot.py
module _ (read_bytes : Text → Result Text) (sha256_of : Text → Text)
    (decode : Text → Result (List Record)) (journal : List Record) where
  -- `_decode_window`
  unfoldable pub decode_window : WindowInfo → Result (List Record)
  unfolding text_eq
  decode_window w = do
    bytes ← read_bytes w.file
    require (text_eq (sha256_of bytes) w.sha256) store_error
    decode bytes

  -- the journal before a window, if any of it is not read yet
  unfoldable pub gap : ℕ → ℕ → List Record
  unfolding read_range
  gap cursor from_ms = if ltb cursor from_ms then read_range journal cursor (from_ms - 1) else []

  -- the loop of `range`, and what follows it
  unfoldable pub range_from : ℕ → ℕ → List WindowInfo → ℕ → Result (List Record)
  unfolding decode_window gap read_range
  range_from known_from known_to [] cursor =
      ok (if leb cursor known_to then read_range journal cursor known_to else [])
  range_from known_from known_to (w ∷ windows) cursor =
      let skipped = range_from known_from known_to windows cursor in
      let next = max cursor (w.to_ms + 1) in
      let later = range_from known_from known_to windows next in
      let rest : Result (List Record) = if ltb known_to next then ok [] else later in
      let taken : Result (List Record) = (do
        records ← decode_window w
        others ← rest
        ok ((gap cursor w.from_ms ++ keep (in_range known_from known_to) records) ++ others)) in
      if ltb w.to_ms known_from || ltb known_to w.from_ms then skipped else taken

  -- `range`, on the windows that the manifest has of the dataset
  unfoldable pub range : List WindowInfo → ℕ → ℕ → Result (List Record)
  unfolding range_from read_range
  range [] known_from known_to = ok (sort_by sort_key (read_range journal known_from known_to))
  range (w ∷ windows) known_from known_to = do
    records ← range_from known_from known_to (w ∷ windows) known_from
    ok (sort_by sort_key records)
