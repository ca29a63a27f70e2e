-- ===== src/TaggedUnion/Values/Restoring.antt =====
-- What the projections of a `Value` leave of the receiver.
use zigo.Prelude.{
  ℕ, ◌≡◌, ◌∙◌, refl, sym, ap, false, Option, none, some, List, [], ◌++◌, String, ◌<>◌, if_intro,
  inl, inr, ◌⊎◌, ◌==◌, subst, arith,
}
use zigo.Prelude.Int.{ℤ}
use zigo.Errors.Classify.{is_panic_code, poison_after_panic}
use zigo.Handle.Common.{Pointer, Result, ok, err, Effect}
use zigo.Handle.Lifecycle.{Lifecycle, Undoable, Laws}
use zigo.TaggedUnion.{projection_error}
use zigo.TaggedUnion.Values.{
  RawValue, ValueVariant, Read, value_as, value_tag, tag_answered, payload_answered, with_payload,
  switch, chosen, after, failed, leaving, value_integer, value_flag, value_mode, value_samples,
  value_child, value_mutable_samples, value_variant,
}

-- No call ends in a Zig panic.
pub record Calm (raw : RawValue) : Type 0 where
  pub tag : (p : Pointer) → is_panic_code (raw.project_tag p).1 ≡ false
  pub integer : (p : Pointer) → is_panic_code (raw.project_integer p).1 ≡ false
  pub flag : (p : Pointer) → is_panic_code (raw.project_flag p).1 ≡ false
  pub mode : (p : Pointer) → is_panic_code (raw.project_mode p).1 ≡ false
  pub samples : (p : Pointer) → is_panic_code (raw.project_samples p).1 ≡ false
  pub child : (p : Pointer) → is_panic_code (raw.project_child p).1 ≡ false
  pub mutable_samples : (p : Pointer) → is_panic_code (raw.project_mutable_samples p).1 ≡ false

-- The handle is `h`, and nothing was called out.
abbrev pub Kept : {H A : Type 0} → H → Read H A → Type 0
Kept h r = (r.0 ≡ h) × (r.2 ≡ [])

-- The handle is `m` or `h`, and nothing was called out.
abbrev pub OneOf : {H A : Type 0} → H → H → Read H A → Type 0
OneOf m h r = ((r.0 ≡ m) ⊎ (r.0 ≡ h)) × (r.2 ≡ [])

module _ {H : Type 0} (l : Lifecycle H) (message : ℤ → String) where
  pub leaving-Kept :
      {A : Type 0} (h : H) (result : Result A) (gone : H × List Effect)
      → gone ≡ (h, [])
      → Kept h (leaving result gone)
  leaving-Kept h result gone e = (ap (λ r. r.0) e, ap (λ r. r.1) e)

  failed-Kept :
      (A : Type 0) (operation : String) (status : ℤ) (h h' : H)
      → is_panic_code status ≡ false
      → l.release h' ≡ (h, [])
      → Kept h (failed l message {A = A} operation status h')
  unfolding failed projection_error poison_after_panic
  failed-Kept A operation status h h' calm back = ground (arith, back)

  tag_answered-Kept :
      (answer : ℕ × ℤ) (h h' : H)
      → is_panic_code answer.1 ≡ false
      → l.release h' ≡ (h, [])
      → Kept h (tag_answered l message answer h')
  unfolding tag_answered
  tag_answered-Kept (result, status) h h' calm back =
      ground (arith, failed-Kept ℕ "Value.Tag" status h h' calm back, back)

  payload_answered-Kept :
      {A B : Type 0} (operation : String) (convert : A → B) (answer : A × ℤ) (h h' : H)
      → is_panic_code answer.1 ≡ false
      → l.release h' ≡ (h, [])
      → Kept h (payload_answered l message operation convert answer h')
  unfolding payload_answered
  payload_answered-Kept {B = B} operation convert (result, status) h h' calm back =
      ground (arith, failed-Kept (Option B) operation status h h' calm back, back)

  pub acquired-Kept :
      {A : Type 0} (h : H) (answer : H × Result Pointer × List Effect)
      (body : Pointer → H → Read H A)
      → ((p : Pointer) (h' : H) → l.release h' ≡ (h, []) → Kept h (body p h'))
      → Undoable l h answer
      → Kept h (elim answer.1 as (λ x. Read H A) [
        | err e ↦ (answer.0, err e, answer.2)
        | ok ptr ↦ body ptr answer.0
      ])
  acquired-Kept h (h', err e, effects) body kept undo = undo
  acquired-Kept h (h', ok p, effects) body kept undo = kept p h' undo.0

  with_payload-Kept :
      {A : Type 0} (build : A → ValueVariant) (h : H) (r : Read H (Option A))
      → Kept h r
      → Kept h (with_payload l message build r)
  unfolding with_payload
  with_payload-Kept build h (h', err e, effects) kept = kept
  with_payload-Kept build h (h', ok none, effects) kept = kept
  with_payload-Kept build h (h', ok (some payload), effects) kept = kept

  after-OneOf :
      {m h : H} (earlier : List Effect) (r : Read H ValueVariant)
      → earlier ≡ []
      → OneOf m h r
      → OneOf m h (after l message earlier r)
  after-OneOf earlier r e (one, quiet) = (one, ap (λ effects. effects ++ r.2) e ∙ quiet)

  module _ {HasRoom : H → Type 0} (laws : Laws l HasRoom) where
    value_tag-Kept :
        (raw : RawValue) (h : H) → HasRoom h → Calm raw → Kept h (value_tag l message raw h)
    unfolding value_tag
    value_tag-Kept raw h room calm =
        acquired-Kept h _ (λ ptr held. tag_answered l message (raw.project_tag ptr) held)
          (λ ptr held. tag_answered-Kept (raw.project_tag ptr) h held (calm.tag ptr))
          (laws.undoable "Value.Tag receiver" h room)

    value_as-Kept :
        {A B : Type 0} (operation : String) (project : Pointer → A × ℤ) (convert : A → B) (h : H)
        → HasRoom h
        → ((p : Pointer) → is_panic_code (project p).1 ≡ false)
        → Kept h (value_as l message operation project convert h)
    unfolding value_as
    value_as-Kept operation project convert h room calm =
        acquired-Kept h _
          (λ ptr held. payload_answered l message operation convert (project ptr) held)
          (λ ptr held. payload_answered-Kept operation convert (project ptr) h held (calm ptr))
          (laws.undoable (operation <> " receiver") h room)

    -- One case of the switch
    case-Kept :
        {A B : Type 0} (build : B → ValueVariant) (operation : String) (project : Pointer → A × ℤ)
        (convert : A → B) (h m : H)
        → HasRoom h
        → ((p : Pointer) → is_panic_code (project p).1 ≡ false)
        → OneOf m h (with_payload l message build (value_as l message operation project convert h))
    case-Kept build operation project convert h m room calm =
        let kept =
          with_payload-Kept build h (value_as l message operation project convert h)
            (value_as-Kept operation project convert h room calm) in
        (inr kept.0, kept.1)

    switch-OneOf :
        (tag : ℕ) (raw : RawValue) (h m : H)
        → HasRoom h
        → Calm raw
        → OneOf m h (switch l message tag raw m h)
    unfolding switch
    switch-OneOf tag raw h m room calm =
        if_intro (OneOf m h) (tag == 0) (λ _. (inl refl, refl))
          (if_intro (OneOf m h) (tag == 1)
            (λ _. case-Kept value_integer _ _ _ h m room calm.integer)
            (if_intro (OneOf m h) (tag == 2) (λ _. case-Kept value_flag _ _ _ h m room calm.flag)
              (if_intro (OneOf m h) (tag == 3) (λ _. case-Kept value_mode _ _ _ h m room calm.mode)
                (if_intro (OneOf m h) (tag == 4)
                  (λ _. case-Kept value_samples _ _ _ h m room calm.samples)
                  (if_intro (OneOf m h) (tag == 5)
                    (λ _. case-Kept value_child _ _ _ h m room calm.child)
                    (if_intro (OneOf m h) (tag == 6)
                      (λ _. case-Kept value_mutable_samples _ _ _ h m room calm.mutable_samples)
                      (inl refl, refl)))))))

    chosen-OneOf :
        (second : RawValue) (between : H → H) (h : H) (r : Read H ℕ)
        → HasRoom (between h)
        → Calm second
        → Kept h r
        → OneOf h (between h) (chosen l message second between r)
    unfolding chosen
    chosen-OneOf second between h (h', err e, effects) room calm (same, quiet) = (inl same, quiet)
    chosen-OneOf second between h (h', ok tag, effects) room calm (same, quiet) =
        subst
          (λ h'.
            OneOf h (between h)
              (after l message effects (switch l message tag second h' (between h'))))
          (sym same)
          (after-OneOf effects (switch l message tag second h (between h)) quiet
            (switch-OneOf tag second (between h) h room calm))

    -- `Variant` holds nothing of its receiver between its two reads, nor at its end: the tag's read leaves the
    -- receiver as it was, and `Variant` leaves it so or as the others made it in between. Nothing is
    -- called out. Neither call ends in a Zig panic, and each time the receiver has room for a call.
    pub value_variant-Kept :
        (first second : RawValue) (between : H → H) (h : H)
        → HasRoom h
        → HasRoom (between h)
        → Calm first
        → Calm second
        → let r = value_variant l message first second between h in
          ((value_tag l message first h).0 ≡ h) × ((r.0 ≡ h) ⊎ (r.0 ≡ between h)) × (r.2 ≡ [])
    unfolding value_variant
    value_variant-Kept first second between h room again calm still =
        let kept = value_tag-Kept first h room calm in
        let one = chosen-OneOf second between h (value_tag l message first h) again still kept in
        (kept.0, one.0, one.1)
