-- ===== src/EnumText.antt =====
-- The text of the enums of examples/07-event-queue (event_queue_enums_gen.go, and
-- event_queue/types/types_enums_gen.go): `String`, `ParseQueueSignal` and the text marshalling.
-- A Go string is the list of its bytes. `strconv.Itoa` of a number that is not negative,
-- `strconv.ParseUint` in base 10, `strings.HasPrefix` and `strings.HasSuffix` are written out.
pub mod Decimal
pub mod Affixes
pub mod RoundTrip
use zigo.Prelude.{
  ℕ, zero, suc, ◌+◌, ◌-◌, ◌*◌, ◌/◌, ◌%◌, ◌^◌, Bool, true, false, ◌&&◌, ◌||◌, Option, none, some,
  List, [], ◌∷◌, ◌++◌, if◌then◌else◌, ◌==◌, ltb, leb, length, take, drop, get_or,
}
use Prim.Native.Char.{code}
use Prim.Native.String.{String}

abbrev pub Bytes : Type 0
Bytes = List ℕ

-- The bytes of a text in ASCII
abbrev pub codes : String → Bytes
codes String.[] = []
codes (String.◌∷◌ c s) = code c ∷ codes s

abbrev pub ==ᵇ : Bytes → Bytes → Bool
==ᵇ [] [] = true
==ᵇ (a ∷ s) (b ∷ t) = let rest = ==ᵇ s t in (a == b) && rest
==ᵇ _ _ = false

-- A number has at most as many decimal digits as its value, so `n` rounds print `n`.
unfoldable pub decimal : ℕ → ℕ → Bytes
decimal zero n = []
decimal (suc rounds) n =
    let front = decimal rounds (n / 10) in if n == 0 then [] else front ++ ((b'0' + n % 10) ∷ [])

-- `strconv.Itoa`, of a number that is not negative
unfoldable pub itoa : ℕ → Bytes
itoa n = if n == 0 then b'0' ∷ [] else decimal n n

-- The loop of `strconv.ParseUint`: `none` for a syntax or a range error
unfoldable pub scan : ℕ → Bytes → ℕ → Option ℕ
scan max [] n = some n
scan max (c ∷ rest) n =
    let d = c - b'0' in
    let more = scan max rest (n * 10 + d) in
    if ltb c b'0' || (ltb b'9' c || ltb max (n * 10 + d)) then none else more

-- `strconv.ParseUint(s, 10, bits)`
unfoldable pub parse_uint : ℕ → Bytes → Option ℕ
parse_uint bits [] = none
parse_uint bits (c ∷ s) = scan (2 ^ bits - 1) (c ∷ s) 0

-- `strings.HasPrefix` and `strings.HasSuffix`
unfoldable pub has_prefix : Bytes → Bytes → Bool
has_prefix s prefix = leb (length prefix) (length s) && ==ᵇ (take (length prefix) s) prefix

unfoldable pub has_suffix : Bytes → Bytes → Bool
has_suffix s suffix =
    leb (length suffix) (length s) && ==ᵇ (drop (length s - length suffix) s) suffix

-- `s[from:to]`
unfoldable pub slice : Bytes → ℕ → ℕ → Bytes
slice s from to = take (to - from) (drop from s)

-- `Policy.String`; the array has a name for each value below 2.
abbrev pub policy_names : List Bytes
policy_names = codes "reject" ∷ codes "drop_oldest" ∷ []

unfoldable pub policy_string : ℕ → Bytes
policy_string value =
    if leb value 1
    then get_or policy_names value []
    else codes "Policy(" ++ (itoa value ++ codes ")")

-- `QueueSignal.String`
abbrev pub queue_signal_names : List Bytes
queue_signal_names = codes "pause" ∷ codes "continue_processing" ∷ []

unfoldable pub queue_signal_string : ℕ → Bytes
queue_signal_string value =
    if leb value 1
    then get_or queue_signal_names value []
    else codes "QueueSignal(" ++ (itoa value ++ codes ")")

-- A value, or an `EnumParseError` with the type and the text
pub data Parsed : Type 0 where
  parsed : ℕ → Parsed
  enum_parse_error : Bytes → Bytes → Parsed

-- What `ParseUint` makes of the text between the parentheses
unfoldable pub numbered : Bytes → Option ℕ → Parsed
numbered text none = enum_parse_error (codes "QueueSignal") text
numbered text (some number) = parsed number

-- `ParseQueueSignal`
unfoldable pub parse_queue_signal : Bytes → Parsed
parse_queue_signal text =
    if ==ᵇ text (codes "pause")
    then parsed 0
    else if ==ᵇ text (codes "continue_processing")
    then parsed 1
    else if has_prefix text (codes "QueueSignal(") && has_suffix text (codes ")")
    then numbered text (parse_uint 8 (slice text (length (codes "QueueSignal(")) (length text - 1)))
    else enum_parse_error (codes "QueueSignal") text

-- `QueueSignal.MarshalText`, which never fails
unfoldable pub marshal_text : ℕ → Bytes
marshal_text value = queue_signal_string value

-- `QueueSignal.UnmarshalText`: the value that the pointer leads to, and the answer
unfoldable stored : ℕ → Parsed → ℕ
stored value (parsed number) = number
stored value (enum_parse_error t s) = value

unfoldable pub unmarshal_text : ℕ → Bytes → ℕ × Parsed
unfolding stored
unmarshal_text value text = let answer = parse_queue_signal text in (stored value answer, answer)
