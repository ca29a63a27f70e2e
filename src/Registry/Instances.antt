-- ===== src/Registry/Instances.antt =====
-- The handles of a package in the registry that its init function fills
-- (event_queue_runtime_gen.go, lines 27-37): queues, streams, boxes and terminals, each at its address.
-- A stream names its parent by the address of the queue. Address 0 is a nil pointer. Left out are the views and
-- children of a box, whose owners form chains.
use zigo.Prelude.{
  ℕ, Bool, true, not, ◌&&◌, ◌≤◌, ◌≡◌, ◌⊎◌, ◌∙◌, sym, ap, subst, false, Option, none, some, List, [],
  ◌∷◌, if◌then◌else◌, ◌==◌, arith,
}
use zigo.Errors.{NativePanicError, native_panic_error}
use zigo.Handle.Common.{is_nil}
use zigo.Handle.BorrowBox as Box
use zigo.Handle.BorrowBox.{BorrowBox}
use zigo.Handle.EventQueue as Queue
use zigo.Handle.EventQueue.{EventQueue}
use zigo.Handle.Stream as Streams
use zigo.Handle.Stream.{Stream}
use zigo.Handle.Terminal as Terminals
use zigo.Handle.Terminal.{Terminal}
use zigo.Registry.{
  Object, Handle, Methods, Registry, empty, register, register_all, poison_after_panic,
}
use zigo.Registry.Dispatch.{Laws, All, Comes, poison_after_panic-All}

pub record Handles : Type 0 where
  pub queues : ℕ → EventQueue
  pub streams : ℕ → Stream
  pub parents : ℕ → ℕ
  pub boxes : ℕ → BorrowBox
  pub terminals : ℕ → Terminal

abbrev replaced : {A : Type 0} → (ℕ → A) → ℕ → A → ℕ → A
replaced f address value j = if address == j then value else f j

-- `(*EventQueue).zigoPoison`, also of a nil pointer
unfoldable pub poison_queue : ℕ → NativePanicError → Handles → Handles
poison_queue address cause w =
    if address == 0
    then w
    else record w { queues = replaced w.queues address (Queue.poison cause (w.queues address)) }

-- `(*Stream).zigoPoison`: the parent is poisoned after the stream.
unfoldable pub poison_stream : ℕ → NativePanicError → Handles → Handles
unfolding poison_queue
poison_stream address cause w =
    let w' : Handles = record w {
      streams = replaced w.streams address (Streams.mark cause (w.streams address));
    } in
    let all = poison_queue (w.parents address) cause w' in
    if address == 0 then w else if (w.streams address).linked then all else w'

-- `(*BorrowBox).zigoPoison`
unfoldable pub poison_box : ℕ → NativePanicError → Handles → Handles
poison_box address cause w =
    if address == 0
    then w
    else record w { boxes = replaced w.boxes address (Box.poison cause (w.boxes address)) }

-- `(*Terminal).zigoPoison`
unfoldable pub poison_terminal : ℕ → NativePanicError → Handles → Handles
poison_terminal address cause w = if address == 0 then w else record w {
  terminals = replaced w.terminals address (Terminals.poison cause (w.terminals address));
}

-- The calls of `Register` for EventQueue, Stream, BorrowBox and Terminal, the types 1 to 4; the other methods
-- that they register are arbitrary, and the calls for BorrowView and BorrowChild are left out.
unfoldable pub registry : (ℕ → Methods Handles) → Registry Handles
registry other =
    register_all
      ((1, record (other 1) { poison = poison_queue })
        ∷ (2, record (other 2) { poison = poison_stream })
        ∷ (3, record (other 3) { poison = poison_box })
        ∷ (4, record (other 4) { poison = poison_terminal })
        ∷ [])
      empty

-- The cause that a handle was poisoned with
abbrev pub cause_at : Object → Handles → Option NativePanicError
cause_at o w =
    if o.type_of == 1
    then (w.queues o.address).poison
    else if o.type_of == 2
    then (w.streams o.address).poison
    else if o.type_of == 3
    then (w.boxes o.address).poison
    else (w.terminals o.address).poison

-- A handle of one of the types
abbrev pub IsKnown : Object → Type 0
IsKnown o = (1 ≤ o.type_of) × (o.type_of ≤ 4)

-- The queue that a stream still has for its parent is poisoned.
abbrev pub reaches_parent : Object → Handles → Bool
reaches_parent o w =
    let parent = w.parents o.address in
    if (o.type_of == 2) && ((w.streams o.address).linked && not (parent == 0))
    then not (is_nil (w.queues parent).poison)
    else true

-- A nil pointer, or a handle that is poisoned, for a stream with its parent
abbrev pub IsPoisoned : Object → Handles → Type 0
IsPoisoned o w = (o.address ≡ 0) ⊎ ((is_nil (cause_at o w) ≡ false) × (reaches_parent o w ≡ true))

abbrev Poisoning : Type 0
Poisoning = ℕ → NativePanicError → Handles → Handles

abbrev poison_by : ℕ → Poisoning
poison_by key =
    if key == 1
    then poison_queue
    else if key == 2
    then poison_stream
    else if key == 3
    then poison_box
    else poison_terminal

poison_by-makes :
    (h : Object) (cause : NativePanicError) (w : Handles)
    → IsPoisoned h (poison_by h.type_of h.address cause w)
unfolding poison_queue poison_stream poison_box poison_terminal Queue.poison Streams.mark Box.poison
    Terminals.poison
poison_by-makes h cause w = ground arith

poison_by-keeps :
    (o h : Object) (cause : NativePanicError) (w : Handles)
    → IsPoisoned o w
    → IsPoisoned o (poison_by h.type_of h.address cause w)
unfolding poison_queue poison_stream poison_box poison_terminal Queue.poison Streams.mark Box.poison
    Terminals.poison
poison_by-keeps o h cause w p = ground arith

abbrev poison_of : Option (Methods Handles) → Poisoning
poison_of none = poison_terminal
poison_of (some entry) = entry.poison

registry-poison :
    (other : ℕ → Methods Handles) (key : ℕ) → poison_of (registry other key) ≡ poison_by key
unfolding registry empty register_all register
registry-poison other key = ground arith

entry-poison :
    (other : ℕ → Methods Handles) (key : ℕ) (entry : Methods Handles)
    → registry other key ≡ some entry
    → poison_by key ≡ entry.poison
entry-poison other key entry e = sym (registry-poison other key) ∙ ap poison_of e

registry_laws : (other : ℕ → Methods Handles) → Laws (registry other) IsPoisoned
registry_laws other = record {
  makes = λ h entry cause w e.
      subst (λ (f : Poisoning). IsPoisoned h (f h.address cause w))
        (entry-poison other h.type_of entry e) (poison_by-makes h cause w);
  keeps = λ o h entry cause w e p.
      subst (λ (f : Poisoning). IsPoisoned o (f h.address cause w))
        (entry-poison other h.type_of entry e) (poison_by-keeps o h cause w p);
}

known-registered :
    (other : ℕ → Methods Handles) (key : ℕ)
    → 1 ≤ key
    → key ≤ 4
    → is_nil (registry other key) ≡ false
unfolding registry empty register_all register
known-registered other key from to = ground arith

All-registered :
    (other : ℕ → Methods Handles) (handles : List Handle)
    → All IsKnown handles
    → All (λ h. is_nil (registry other h.type_of) ≡ false) handles
All-registered other [] known = tt
All-registered other (none ∷ rest) known = All-registered other rest known
All-registered other (some h ∷ rest) known =
    (known-registered other h.type_of known.0.0 known.0.1, All-registered other rest known.1)

-- After a Zig panic `PoisonAfterPanic`, handed any list of queues, streams, boxes and terminals, comes back
-- and every handle of the list is poisoned that is neither nil nor a nil pointer, and with a stream the queue
-- that it still has for its parent: whatever states they were in, in whichever order they stand, also one
-- that is named twice, and a queue beside a stream of its own. Their other registered methods may be
-- anything.
pub poison_after_panic-registered :
    (other : ℕ → Methods Handles) (cause : NativePanicError) (handles : List Handle) (w : Handles)
    → All IsKnown handles
    → Comes
        (λ w'. All (λ h. IsPoisoned h w') handles)
        (poison_after_panic (registry other) (native_panic_error cause) handles w)
poison_after_panic-registered other cause handles w known =
    poison_after_panic-All (registry other) IsPoisoned cause (registry_laws other) handles w
      (All-registered other handles known)
