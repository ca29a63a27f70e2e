-- ===== src/Documents/Counting.antt =====
-- `Document.WriteTo` and `zigoCountingWriter`
-- (examples/11-io-streams/go/streams/streams_gen.go, lines 122-168, and streams_runtime_gen.go,
-- lines 115-126).
-- What native code does with a writer during a call is a tree: it ends the call, or hands a chunk to the
-- writer and goes on with the writer's answer. The user's writer is a parameter.
use zigo.Prelude.{
  ℕ, ◌+◌, ◌%◌, ◌<◌, ◌≡◌, ◌∙◌, refl, ap, Option, none, some, List, String, add64, word, arith,
}
use zigo.Prelude.Int.{ℤ}
use zigo.Errors.{GoError}
use zigo.Handle.Common.{Pointer, Result, ok, err, Effect}
use zigo.Handle.Lifecycle.{Lifecycle}
use zigo.Methods.{Outcome, returns}
use zigo.Documents.{Bytes, Crossed, Holder, lend, checked_dump, checked_load}

-- `io.Writer`, over the writer's state: the count and the error of `Write`
abbrev pub Writer : Type 0 → Type 0
Writer W = Bytes → W → W × ℕ × Option GoError

-- `zigoCountingWriter`
pub record CountingWriter (W : Type 0) : Type 0 where
  pub w : W
  pub n : ℕ  -- int64

-- `zigoCountingWriter.Write`
unfoldable pub counting_write : {W : Type 0} → Writer W → Writer (CountingWriter W)
counting_write write p c = let (w, n, e) = write p c.w in (record { w = w; n = add64 c.n n }, n, e)

pub data Script : Type 0 where
  end_call : Crossed (Unit {0}) → Script
  hand_over : Bytes → (ℕ × Option GoError → Script) → Script

-- The call over a writer: the writer afterwards, and how the call ended
unfoldable pub play : {W : Type 0} → Writer W → Script → W → W × Crossed (Unit {0})
play write (end_call crossed) w = (w, crossed)
play write (hand_over chunk next) w = let (w', n, e) = write chunk w in play write (next (n, e)) w'

-- The count that the writer reported, over all chunks of a call
unfoldable pub reported : {W : Type 0} → Writer W → Script → W → ℕ
reported write (end_call crossed) w = 0
reported write (hand_over chunk next) w =
    let (w', n, e) = write chunk w in n + reported write (next (n, e)) w'

play-counting :
    {W : Type 0} (write : Writer W) (script : Script) (w : W) (n : ℕ)
    → n + reported write script w < word
    → play (counting_write write) script (record { w = w; n = n }) ≡ (
      record { w = (play write script w).0; n = n + reported write script w },
      (play write script w).1,
    )
unfolding play reported counting_write
play-counting write (end_call crossed) w n small = ground arith
play-counting write (hand_over chunk next) w n small = ground (
  arith,
  play-counting write (next ((write chunk w).1, (write chunk w).2)) (write chunk w).0
      (n + (write chunk w).1) (omega (arith, small)),
)

counting_from_zero :
    {W : Type 0} (write : Writer W) (script : Script) (w : W)
    → reported write script w < word
    → play (counting_write write) script (record { w = w; n = 0 }) ≡ (
      record { w = (play write script w).0; n = reported write script w },
      (play write script w).1,
    )
counting_from_zero {W = W} write script w small =
    play-counting write script w 0 (omega (arith, small))
    ∙ ap (λ (n : ℕ). (record { w = (play write script w).0; n = n }, (play write script w).1))
        (omega arith)

-- How a call ended: the receiver, the outcome, and what was called out
abbrev pub Ended : Type 0 → Type 0
Ended H = Holder H × Outcome (Unit {0}) × List Effect

-- What a call over `v` leaves of it, if the receiver let the call in
abbrev pub played : {V : Type 0} → (Pointer → V) → V → Result Pointer → V
played after v (err e) = v
played after v (ok p) = after p

abbrev counted_load :
    {H : Type 0} → Holder H × Outcome ℕ × List Effect → Holder H × Outcome ℕ × List Effect
counted_load (s, returns n, effects) = (s, returns (n % word), effects)
counted_load r = r

module _ {H : Type 0} (panic_message : ℤ → String) (l : Lifecycle H) where
  -- `Document.Dump` to a writer, with which native code does what `script` says: the writer afterwards, and
  -- how the call ended
  unfoldable pub dump_to : {V : Type 0} → Writer V → (Pointer → Script) → V → Holder H → V × Ended H
  dump_to write script w s = (
    played (λ p. (play write (script p) w).0) w (l.acquire "Document.Dump receiver" s.handle).1,
    checked_dump panic_message l (λ w p. (play write (script p) w).1) (some w) s,
  )

  -- `Document.ReadFrom`
  unfoldable pub read_from :
      {S : Type 0}
      → (S → Pointer → Crossed ℕ)
      → Option S
      → Holder H
      → Holder H × Outcome ℕ × List Effect
  read_from native r s = counted_load (checked_load panic_message l native r s)

module _ {H W : Type 0} (panic_message : ℤ → String) (l : Lifecycle H) where
  abbrev count_of : CountingWriter W × Ended H → Option W × ℕ × Ended H
  count_of (c, ended) = (some c.w, c.n, ended)

  -- `Document.WriteTo`; `none` is a nil writer.
  unfoldable pub write_to :
      Writer W → (Pointer → Script) → Option W → Holder H → Option W × ℕ × Ended H
  write_to write script none s =
      (none, 0, checked_dump panic_message l (λ w p. (play write (script p) w).1) none s)
  write_to write script (some w) s =
      count_of (dump_to panic_message l (counting_write write) script (record { w = w; n = 0 }) s)

  -- Two native calls that end alike
  lend-same :
      (f g : Pointer → Crossed (Unit {0})) (c : CountingWriter W) (w : W) (s : Holder H)
      → ((p : Pointer) → f p ≡ g p)
      → checked_dump panic_message l (λ c p. f p) (some c) s
        ≡ checked_dump panic_message l (λ w p. g p) (some w) s
  unfolding lend
  lend-same f g c w s same =
      ap
        (λ (k : Pointer → Crossed (Unit {0})). checked_dump panic_message l (λ w p. k p) (some w) s)
        (λ i p. same p i)

  played-counting :
      (write : Writer W) (script : Pointer → Script) (w : W) (acquired : Result Pointer)
      → ((p : Pointer) → reported write (script p) w < word)
      → played
          (λ p. (play (counting_write write) (script p) (record { w = w; n = 0 })).0)
          (record { w = w; n = 0 })
          acquired
        ≡ record {
          w = played (λ p. (play write (script p) w).0) w acquired;
          n = played (λ p. reported write (script p) w) 0 acquired;
        }
  played-counting write script w (err e) small = refl
  played-counting write script w (ok p) small =
      ap (λ r. r.0) (counting_from_zero write (script p) w (small p))

  -- `WriteTo` is `Dump` to the writer itself, with a count: the writer and the end of the call are those of
  -- the plain `Dump`, and the count is the sum of what the writer reported for the chunks that native
  -- code handed to it, 0 for a receiver that refused the call. The sum is below 2 ^ 64.
  pub write_to-dump_to :
      (write : Writer W) (script : Pointer → Script) (w : W) (s : Holder H)
      → ((p : Pointer) → reported write (script p) w < word)
      → let (after, ended) = dump_to panic_message l write script w s in
        write_to write script (some w) s ≡ (
          some after,
          played
              (λ p. reported write (script p) w)
              0
              (l.acquire "Document.Dump receiver" s.handle).1,
          ended,
        )
  unfolding write_to dump_to play lend
  write_to-dump_to write script w s small =
      let start : CountingWriter W = record { w = w; n = 0 } in
      let after =
        played-counting write script w (l.acquire "Document.Dump receiver" s.handle).1 small in
      let ended =
        lend-same (λ p. (play (counting_write write) (script p) start).1)
          (λ p. (play write (script p) w).1) start w s
          (λ p. ap (λ r. r.1) (counting_from_zero write (script p) w (small p))) in
      λ i. count_of (after i, ended i)
