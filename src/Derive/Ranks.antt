-- ===== src/Derive/Ranks.antt =====
-- `_pct_rank` of hub/derive.py. Its comparison stands outside of any `try`.
use qkt_data_hub.Prelude.{
  ℕ, suc, Option, none, some, List, [], ◌∷◌, Result, ok, ◌>>=◌, if◌then◌else◌, length,
}
use qkt_data_hub.Prelude.Text.{Text}
use qkt_data_hub.Record.{Payload}
use qkt_data_hub.Derive.Decimals.{DecimalContext}
use qkt_data_hub.Derive.Syntax.{History}
use qkt_data_hub.Derive.Statistics.{read_field, recent_window}

module _ (c : DecimalContext) where
  open c use {Decimal}

  -- sum(1 for v in values if v < current)
  count_below : Decimal → List Decimal → Result ℕ
  count_below current [] = ok 0
  count_below current (v ∷ values) = c.less v current >>= λ below.
      count_below current values >>= λ rest. ok (if below then suc rest else rest)

  rank : Option (List Decimal) → Option Decimal → Result (Option Decimal)
  unfolding count_below
  rank none current = ok none
  rank (some values) none = ok none
  rank (some []) (some current) = ok none
  rank (some (v ∷ values)) (some current) = count_below current (v ∷ values) >>= λ below.
      ok (c.divide (c.of_ℕ below) (c.of_ℕ (length (v ∷ values))))

  unfoldable pub pct_rank_value : Text → ℕ → Payload → History → Result (Option Decimal)
  unfolding recent_window rank
  pct_rank_value field window payload history =
      rank (recent_window c field window history) (read_field c field payload)
