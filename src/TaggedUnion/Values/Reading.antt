-- ===== src/TaggedUnion/Values/Reading.antt =====
-- The projections of a `Value` against the contents that the native side holds.
use zigo.Prelude.{
  ℕ, ◌≡◌, ◌∙◌, refl, ap, Bool, not, Option, none, some, List, [], ◌∷◌, String, ◌<>◌, if◌then◌else◌,
  ◌==◌, arith,
}
use zigo.Prelude.Int.{ℤ}
use zigo.Errors.{handle_error}
use zigo.Handle.Common.{Pointer, Result, ok, err}
use zigo.Handle.Lifecycle.{Lifecycle}
use zigo.TaggedUnion.{projection_success, projection_mismatch, projection_error}
use zigo.TaggedUnion.Handles.Keeping.{Refuses}
use zigo.TaggedUnion.Values.{
  RawValue, ValueVariant, value_none, value_integer, value_flag, value_mode, value_samples,
  value_child, value_mutable_samples, Read, copied, value_as, value_tag, tag_answered,
  payload_answered, with_payload, changed, switch, chosen, value_variant,
}

abbrev pub value_tag_of : ValueVariant → ℕ
value_tag_of value_none = 0
value_tag_of (value_integer v) = 1
value_tag_of (value_flag v) = 2
value_tag_of (value_mode v) = 3
value_tag_of (value_samples v) = 4
value_tag_of (value_child v) = 5
value_tag_of (value_mutable_samples v) = 6

-- The payload of one variant, if the contents are of it
abbrev pub integer_of : ValueVariant → Option ℕ
integer_of (value_integer v) = some v
integer_of _ = none

abbrev pub flag_of : ValueVariant → Option Bool
flag_of (value_flag v) = some v
flag_of _ = none

abbrev pub mode_of : ValueVariant → Option ℕ
mode_of (value_mode v) = some v
mode_of _ = none

abbrev pub samples_of : ValueVariant → Option (List ℕ)
samples_of (value_samples v) = some v
samples_of _ = none

abbrev pub child_of : ValueVariant → Option Pointer
child_of (value_child v) = some v
child_of _ = none

abbrev pub mutable_samples_of : ValueVariant → Option (List ℕ)
mutable_samples_of (value_mutable_samples v) = some v
mutable_samples_of _ = none

-- A projection that answers for the payload `o`: its native form and success, or a mismatch
abbrev pub AnswersFor : {A B : Type 0} → (B → A) → A × ℤ → Option B → Type 0
AnswersFor native (v, status) (some w) = (v ≡ native w) × (status ≡ projection_success)
AnswersFor native (v, status) none = status ≡ projection_mismatch

abbrev pub as_byte : Bool → ℕ
as_byte b = if b then 1 else 0

-- What the Zig side promises of a union at `ptr` that holds `v`
pub record Contains (raw : RawValue) (ptr : Pointer) (v : ValueVariant) : Type 0 where
  pub tag : raw.project_tag ptr ≡ (value_tag_of v, projection_success)
  pub integer : AnswersFor (λ n. n) (raw.project_integer ptr) (integer_of v)
  pub flag : AnswersFor as_byte (raw.project_flag ptr) (flag_of v)
  pub mode : AnswersFor (λ n. n) (raw.project_mode ptr) (mode_of v)
  pub samples : AnswersFor (λ s. s) (raw.project_samples ptr) (samples_of v)
  pub child : AnswersFor (λ p. p) (raw.project_child ptr) (child_of v)
  pub mutable_samples : AnswersFor (λ s. s) (raw.project_mutable_samples ptr) (mutable_samples_of v)

copied_lem : (samples : List ℕ) → copied samples ≡ samples
copied_lem [] = refl
copied_lem (s ∷ samples) = ap (λ r. s ∷ r) (copied_lem samples)

as_byte_lem : (b : Bool) → not (as_byte b == 0) ≡ b
as_byte_lem b = ground arith

-- What `Variant` returns when the union holds `v` at the first read and `w` at the second
abbrev pub seen : (ℤ → String) → ValueVariant → ValueVariant → Result ValueVariant
seen message v w =
    if value_tag_of v == 0
    then ok value_none
    else if value_tag_of v == value_tag_of w
    then ok w
    else err (projection_error message "Value.Variant" projection_mismatch)

module _ {H : Type 0} (l : Lifecycle H) (message : ℤ → String) where
  -- A call that the handle lets in at `h`, and that ends with `result`
  abbrev pub read_ended : {A : Type 0} → String → H → Result A → Read H A
  read_ended operation h result =
      let (h', effects) = l.release (l.acquire operation h).0 in (h', result, effects)

  value_as-AnswersFor :
      {A B : Type 0} (operation : String) (project : Pointer → A × ℤ) (convert : A → B)
      (native : B → A) (h : H) (ptr : Pointer) (o : Option B)
      → ((b : B) → convert (native b) ≡ b)
      → (l.acquire (operation <> " receiver") h).1 ≡ ok ptr
      → AnswersFor native (project ptr) o
      → value_as l message operation project convert h
        ≡ read_ended (operation <> " receiver") h (ok o)
  unfolding value_as payload_answered
  value_as-AnswersFor operation project convert native h ptr none inverse a answers = ground arith
  value_as-AnswersFor operation project convert native h ptr (some w) inverse a answers =
      ground (arith, inverse w)

  abbrev taken : {A : Type 0} → (A → ValueVariant) → Option A → Result ValueVariant
  taken build none = changed l message
  taken build (some payload) = ok (build payload)

  -- A read of the one variant that `build` makes, of a union that holds `w`
  with_payload-taken :
      {A : Type 0} (build : A → ValueVariant) (operation : String) (h : H) (o : Option A)
      (r : Read H (Option A))
      → r ≡ read_ended operation h (ok o)
      → (with_payload l message build r).1 ≡ taken build o
  unfolding with_payload
  with_payload-taken build operation h none r e = ap (λ r. (with_payload l message build r).1) e
  with_payload-taken build operation h (some payload) r e =
      ap (λ r. (with_payload l message build r).1) e

  switch-seen :
      (second : RawValue) (m h : H) (ptr : Pointer) (v w : ValueVariant)
      → ((operation : String) → (l.acquire operation h).1 ≡ ok ptr)
      → Contains second ptr w
      → (switch l message (value_tag_of v) second m h).1 ≡ seen message v w
  unfolding switch
  switch-seen second m h ptr value_none w a c = refl
  switch-seen second m h ptr (value_integer x) w a c =
      with_payload-taken value_integer _ h (integer_of w) _ (
        value_as-AnswersFor "Value.AsInteger" second.project_integer (λ n. n) (λ n. n) h ptr
          (integer_of w) (λ n. refl) (a _) c.integer)
      ∙ ground arith
  switch-seen second m h ptr (value_flag x) w a c =
      with_payload-taken value_flag _ h (flag_of w) _ (
        value_as-AnswersFor "Value.AsFlag" second.project_flag (λ n. not (n == 0)) as_byte h ptr
          (flag_of w) as_byte_lem (a _) c.flag)
      ∙ ground arith
  switch-seen second m h ptr (value_mode x) w a c =
      with_payload-taken value_mode _ h (mode_of w) _ (
        value_as-AnswersFor "Value.AsMode" second.project_mode (λ n. n) (λ n. n) h ptr (mode_of w)
          (λ n. refl) (a _) c.mode)
      ∙ ground arith
  switch-seen second m h ptr (value_samples x) w a c =
      with_payload-taken value_samples _ h (samples_of w) _ (
        value_as-AnswersFor "Value.AsSamples" second.project_samples copied (λ s. s) h ptr
          (samples_of w) copied_lem (a _) c.samples)
      ∙ ground arith
  switch-seen second m h ptr (value_child x) w a c =
      with_payload-taken value_child _ h (child_of w) _ (
        value_as-AnswersFor "Value.AsChild" second.project_child (λ p. p) (λ p. p) h ptr
          (child_of w) (λ p. refl) (a _) c.child)
      ∙ ground arith
  switch-seen second m h ptr (value_mutable_samples x) w a c =
      with_payload-taken value_mutable_samples _ h (mutable_samples_of w) _ (
        value_as-AnswersFor "Value.AsMutableSamples" second.project_mutable_samples copied (λ s. s)
          h ptr (mutable_samples_of w) copied_lem (a _) c.mutable_samples)
      ∙ ground arith

  -- The handle when the tag has been read
  abbrev pub tag_read : H → H
  tag_read h = (l.release (l.acquire "Value.Tag receiver" h).0).0

  value_tag-Contains :
      (first : RawValue) (h : H) (ptr : Pointer) (v : ValueVariant)
      → (l.acquire "Value.Tag receiver" h).1 ≡ ok ptr
      → Contains first ptr v
      → value_tag l message first h ≡ read_ended "Value.Tag receiver" h (ok (value_tag_of v))
  unfolding value_tag tag_answered
  value_tag-Contains first h ptr v a c = ground (arith, c.tag)

  value_variant-tag :
      (first second : RawValue) (between : H → H) (h : H) (tag : ℕ)
      → value_tag l message first h ≡ read_ended "Value.Tag receiver" h (ok tag)
      → (value_variant l message first second between h).1
        ≡ (switch l message tag second (tag_read h) (between (tag_read h))).1
  unfolding value_variant chosen
  value_variant-tag first second between h tag e = ap (λ r. (chosen l message second between r).1) e

  -- `Variant` of a union that other goroutines may change between its two reads, of a handle that lets both
  -- calls in. If the union holds `v` at the first read and `w` at the second, it returns `w` when both
  -- are of one variant, and an error of the status mismatch otherwise; only for a `v` without payload
  -- does it return `v` unread. So an unchanged union gives exactly its contents.
  pub value_variant-seen :
      (first second : RawValue) (between : H → H) (h : H) (ptr : Pointer) (v w : ValueVariant)
      → (l.acquire "Value.Tag receiver" h).1 ≡ ok ptr
      → ((operation : String) → (l.acquire operation (between (tag_read h))).1 ≡ ok ptr)
      → Contains first ptr v
      → Contains second ptr w
      → ((value_variant l message first second between h).1 ≡ seen message v w)
        × (seen message v v ≡ ok v)
  value_variant-seen first second between h ptr v w a b c d = (
    value_variant-tag first second between h (value_tag_of v) (value_tag-Contains first h ptr v a c)
        ∙ switch-seen second (tag_read h) (between (tag_read h)) ptr v w b d,
    ground arith,
  )

  value_as-Refuses :
      {A B : Type 0} (operation : String) (project : Pointer → A × ℤ) (convert : A → B) (h : H)
      → Refuses l h
      → value_as l message operation project convert h
        ≡ (h, err (handle_error (operation <> " receiver")), [])
  unfolding value_as
  value_as-Refuses operation project convert h refuses =
      ground (arith, refuses (operation <> " receiver"))

  -- The receiver in the error of the call that reads the payload of a variant
  abbrev pub reader_of : ValueVariant → String
  reader_of value_none = ""
  reader_of (value_integer v) = "Value.AsInteger receiver"
  reader_of (value_flag v) = "Value.AsFlag receiver"
  reader_of (value_mode v) = "Value.AsMode receiver"
  reader_of (value_samples v) = "Value.AsSamples receiver"
  reader_of (value_child v) = "Value.AsChild receiver"
  reader_of (value_mutable_samples v) = "Value.AsMutableSamples receiver"

  with_payload-error :
      {A : Type 0} (build : A → ValueVariant) (operation : String) (h : H) (r : Read H (Option A))
      → r ≡ (h, err (handle_error operation), [])
      → (with_payload l message build r).1 ≡ err (handle_error operation)
  unfolding with_payload
  with_payload-error build operation h r e = ap (λ r. (with_payload l message build r).1) e

  switch-Refuses :
      (second : RawValue) (m h : H) (v : ValueVariant)
      → Refuses l h
      → (switch l message (value_tag_of v) second m h).1
        ≡ (if value_tag_of v == 0 then ok value_none else err (handle_error (reader_of v)))
  unfolding switch
  switch-Refuses second m h value_none r = refl
  switch-Refuses second m h (value_integer x) r =
      with_payload-error value_integer _ h _ (value_as-Refuses _ _ _ h r)
  switch-Refuses second m h (value_flag x) r =
      with_payload-error value_flag _ h _ (value_as-Refuses _ _ _ h r)
  switch-Refuses second m h (value_mode x) r =
      with_payload-error value_mode _ h _ (value_as-Refuses _ _ _ h r)
  switch-Refuses second m h (value_samples x) r =
      with_payload-error value_samples _ h _ (value_as-Refuses _ _ _ h r)
  switch-Refuses second m h (value_child x) r =
      with_payload-error value_child _ h _ (value_as-Refuses _ _ _ h r)
  switch-Refuses second m h (value_mutable_samples x) r =
      with_payload-error value_mutable_samples _ h _ (value_as-Refuses _ _ _ h r)

  -- A `Close` between the two reads of `Variant`: the caller gets the error of a closed handle that names
  -- the payload's reader, and nothing of the payload; a union without payload is still returned.
  pub value_variant-closed :
      (first second : RawValue) (between : H → H) (h : H) (ptr : Pointer) (v : ValueVariant)
      → (l.acquire "Value.Tag receiver" h).1 ≡ ok ptr
      → Refuses l (between (tag_read h))
      → Contains first ptr v
      → (value_variant l message first second between h).1
        ≡ (if value_tag_of v == 0 then ok value_none else err (handle_error (reader_of v)))
  value_variant-closed first second between h ptr v a r c =
      value_variant-tag first second between h (value_tag_of v)
        (value_tag-Contains first h ptr v a c)
      ∙ switch-Refuses second (tag_read h) (between (tag_read h)) v r
