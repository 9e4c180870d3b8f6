-- ===== src/Tests/Fields.antt =====
-- src/csv.c at concrete inputs.
use simet_lmapd.Base.{◌≡◌, refl, false, ◌∷◌, ◌++◌, some, arith}
use simet_lmapd.Text.{codes}
use simet_lmapd.Csv.{
  need_quote, double_quotes, append, next_loop, c_string, csv_next, csv_append_key_value,
  csv_next_key_value,
}
use simet_lmapd.Csv.KeyValue.{left, key_value_round_trip}

key_value_round_trip_example :
    csv_next_key_value 59 (record {
      rest = csv_append_key_value 59 (some (codes "status")) (some (codes "0")) ++ codes "more";
      eof = false;
    })
    ≡ some (some (codes "status"), some (codes "0"), left 59 (codes "0") (codes "more"))
key_value_round_trip_example =
    key_value_round_trip 59 (codes "status") (codes "0") (codes "more")
      (ground arith, ground arith, refl) (ground arith, ground arith, ground arith)
      (ground arith, ground arith, ground arith)

-- A quote at the start of a field is lost, and with it the end of the field.
quote_lost :
    csv_next 59 (append 59 (some (codes "\"x")) ++ 59 ∷ codes "y")
    ≡ (some (codes "x"), record { rest = codes "y"; eof = false })
unfolding csv_next next_loop append need_quote double_quotes c_string
quote_lost = refl
