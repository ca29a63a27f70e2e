-- ===== src/EnumText/RoundTrip.antt =====
-- A value read back from its text.
use zigo.Prelude.{
  ℕ, zero, suc, ◌<◌, ◌^◌, ◌≡◌, ◌∙◌, refl, ap, Bool, true, Option, some, ◌++◌, arith, if◌then◌else◌,
  ◌&&◌,
}
use zigo.EnumText.{
  Bytes, codes, itoa, parse_uint, has_prefix, has_suffix, queue_signal_string, parsed,
  enum_parse_error, numbered, stored, parse_queue_signal, marshal_text, unmarshal_text,
}
use zigo.EnumText.Affixes.{has_prefix-append, has_suffix-append, slice-append}
use zigo.EnumText.Decimal.{parse_uint-itoa}

abbrev spelled : ℕ → Bytes
spelled n = codes "QueueSignal(" ++ (itoa n ++ codes ")")

accepted :
    (text : Bytes) (n : ℕ) (p s : Bool) (r : Option ℕ)
    → p ≡ true
    → s ≡ true
    → r ≡ some n
    → (if p && s then numbered text r else enum_parse_error (codes "QueueSignal") text) ≡ parsed n
unfolding numbered
accepted text n p s r hp hs hr = ground arith

named :
    (parse_queue_signal (codes "pause") ≡ parsed 0)
    × (parse_queue_signal (codes "continue_processing") ≡ parsed 1)
unfolding parse_queue_signal
named = (refl, refl)

parse_queue_signal-spelled : (n : ℕ) → n < 2 ^ 8 → parse_queue_signal (spelled n) ≡ parsed n
unfolding parse_queue_signal
parse_queue_signal-spelled n small =
    let pre = codes "QueueSignal(" in
    let close = codes ")" in
    let text = pre ++ (itoa n ++ close) in
    accepted text n (has_prefix text pre) (has_suffix text close) _
      (has_prefix-append pre (itoa n ++ close)) (has_suffix-append (pre ++ itoa n) close)
      (ap (parse_uint 8) (slice-append pre (itoa n) close) ∙ parse_uint-itoa 8 n small)

parse_queue_signal-string :
    (value : ℕ) → value < 2 ^ 8 → parse_queue_signal (queue_signal_string value) ≡ parsed value
unfolding queue_signal_string
parse_queue_signal-string zero small = named.0
parse_queue_signal-string (suc zero) small = named.1
parse_queue_signal-string (suc (suc n)) small =
    ground (arith, parse_queue_signal-spelled (suc (suc n)) small)

-- `ParseQueueSignal` gives back every value of the enum from its `String`, whether the value is named or
-- not; and `UnmarshalText` stores it, whatever was stored before.
pub unmarshal_text-marshal_text :
    (value old : ℕ)
    → value < 2 ^ 8
    → (parse_queue_signal (queue_signal_string value) ≡ parsed value)
      × (unmarshal_text old (marshal_text value) ≡ (value, parsed value))
unfolding marshal_text unmarshal_text stored
unmarshal_text-marshal_text value old small =
    let back = parse_queue_signal-string value small in ground (arith, back)
