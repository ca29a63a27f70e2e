-- ===== src/Tests/Text.antt =====
-- The text of enums, and the value structs of a batch.
use zigo.Prelude.{◌≡◌, refl, [], ◌∷◌, arith, false}
use zigo.EnumText as EnumText
use zigo.EnumText.{
  codes, policy_string, queue_signal_string, parse_queue_signal, Parsed, parsed, enum_parse_error,
  marshal_text, unmarshal_text,
}
use zigo.EnumText.RoundTrip.{unmarshal_text-marshal_text}
use zigo.Conversions.{Stats, StatsData}

unmarshal_text-marshal_text_example :
    (parse_queue_signal (queue_signal_string 207) ≡ parsed 207)
    × (unmarshal_text 1 (marshal_text 207) ≡ (207, parsed 207))
unmarshal_text-marshal_text_example = unmarshal_text-marshal_text 207 1 (omega arith)

texts :
    (queue_signal_string 207 ≡ codes "QueueSignal(207)")
    × (policy_string 1 ≡ codes "drop_oldest")
    × (policy_string 42 ≡ codes "Policy(42)")
    × (parse_queue_signal (codes "QueueSignal(256)")
        ≡ enum_parse_error (codes "QueueSignal") (codes "QueueSignal(256)"))
    × (parse_queue_signal (codes "QueueSignal()")
        ≡ enum_parse_error (codes "QueueSignal") (codes "QueueSignal()"))
    × (parse_queue_signal (codes "QueueSignal(001)") ≡ parsed 1)
unfolding queue_signal_string policy_string parse_queue_signal EnumText.itoa EnumText.decimal
    EnumText.parse_uint EnumText.scan EnumText.has_prefix EnumText.has_suffix EnumText.slice
    EnumText.numbered
texts = (refl, refl, refl, refl, refl, refl)

abbrev row : StatsData
row = record {
  len = 3;
  capacity = 8;
  dropped = 0;
  processed = 5;
  policy = 1;
  saturated = 2;
  recent = 1 ∷ 2 ∷ 3 ∷ 4 ∷ [];
}

abbrev stale : Stats
stale = record {
  len = 9;
  capacity = 9;
  dropped = 9;
  processed = 9;
  policy = 0;
  saturated = false;
  recent = 0 ∷ 0 ∷ 0 ∷ 0 ∷ [];
}
