-- ===== src/Handle/Scratch.antt =====
-- `zigoScratch` of event_queue_handles_gen.go, lines 935-962: a buffer that a handle lends to the calls
-- on it, one call at a time, without a lock.
-- Each method has one atomic operation on the shared pointer; what follows it touches only a buffer that
-- no other call has. So a method is one step. `lent` has the buffers that calls hold, latest first,
-- and `next` is the address of the next allocation.
pub mod Lending
use zigo.Prelude.{
  ℕ, zero, suc, ◌+◌, Bool, true, false, Option, none, some, List, [], ◌∷◌, if◌then◌else◌, ltb,
}

-- A `*[]T`: the address of the slice header, and the header. A nil slice has no array.
pub record Buffer : Type 0 where
  pub header : ℕ
  pub array : Option ℕ
  pub capacity : ℕ
  pub length : ℕ

pub record Scratch : Type 0 where
  pub buffer : Option Buffer
  pub lent : List Buffer
  pub next : ℕ

unfoldable pub start : Scratch
start = record { buffer = none; lent = []; next = 0 }

-- `if buffer == nil { buffer = new([]T) }`
unfoldable pub obtained : Option Buffer → ℕ → Buffer × ℕ
obtained (some b) next = (b, next)
obtained none next = (record { header = next; array = none; capacity = 0; length = 0 }, suc next)

-- `if cap(*buffer) < n { *buffer = make([]T, n) }`, then `*buffer = (*buffer)[:n]`
unfoldable pub fitted : ℕ → Buffer × ℕ → Buffer × ℕ
fitted n (b, next) =
    if ltb b.capacity n
    then (record b { array = some next; capacity = n; length = n }, suc next)
    else (record b { length = n }, next)

-- `take`
unfoldable pub take : ℕ → Scratch → Scratch × Buffer
unfolding obtained fitted
take n s =
    let (b, next) = fitted n (obtained s.buffer s.next) in
    (record { buffer = none; lent = b ∷ s.lent; next = next }, b)

-- `CompareAndSwap(nil, buffer)`
abbrev pub kept_of : Option Buffer → Buffer → Option Buffer
kept_of none b = some b
kept_of (some other) b = some other

-- The buffer that a call holds, and the rest
abbrev pub picked : ℕ → List Buffer → Option Buffer × List Buffer
picked i [] = (none, [])
picked zero (b ∷ rest) = (some b, rest)
picked (suc i) (b ∷ rest) = let (found, others) = picked i rest in (found, b ∷ others)

-- `give`, by the call that holds the buffer at `i` of `lent`
unfoldable pub give : ℕ → Scratch → Scratch
give i s =
    let (found, others) = picked i s.lent in
    elim found [ none ↦ s | some b ↦ record s { buffer = kept_of s.buffer b; lent = others } ]

-- `release`
unfoldable pub release : Scratch → Scratch
release s = record s { buffer = none }

pub data Action : Type 0 where
  takes : ℕ → Action
  gives : ℕ → Action
  releases : Action

unfoldable pub step : Scratch → Action → Scratch
step s (takes n) = (take n s).0
step s (gives i) = give i s
step s releases = release s

unfoldable pub run : Scratch → List Action → Scratch
run s [] = s
run s (a ∷ rest) = run (step s a) rest
