-- ===== src/Tests/Documents.antt =====
-- A document that is read, and dumped to a writer that fails.
use zigo.Prelude.{ℕ, ◌+◌, ◌<◌, ◌≡◌, refl, none, some, [], ◌∷◌, String, word, arith}
use zigo.Prelude.Int.{ℤ, pos, negsuc}
use zigo.Errors.{sentinel, other}
use zigo.Handle.Common.{Pointer}
use zigo.Handle.Lifecycle.Instances.{terminal, terminal_laws}
use zigo.Handle.Terminal as Terminals
use zigo.Handle.Terminal.{Terminal}
use zigo.Methods.Plain.{Raw, plain, finished}
use zigo.Documents.{Bytes, Crossed, Holder, lend, read, read_answer, source_read, source_answer}
use zigo.Documents.Counting.{
  Writer, Script, end_call, hand_over, dump_to, write_to, played, reported, write_to-dump_to,
}
use zigo.Documents.Codepoints.{sum_codepoints, IsChecked, sum_codepoints-IsChecked}
use zigo.Documents.Contracts.{Unchanged, lend-Unchanged}

message : ℤ → String
message code = "panic"

-- A `Document` has the lifecycle of a `Terminal`: a root handle without children.
abbrev document : Holder Terminal
document = record { handle = Terminals.new (some 7) none; active = 3 }

-- The writer failed, and the native side reported it.
abbrev dump : ℕ → Pointer → Crossed (Unit {0})
dump writer p = record {
  result = tt;
  code = pos 4;
  pending = 0;
  panic = none;
  failure = some (sentinel (other 7));
}

lend-Unchanged_example :
    Unchanged document (lend message terminal "Document.Dump" "w" dump (some 2) document)
unfolding Terminals.new
lend-Unchanged_example =
    lend-Unchanged message terminal (λ (t : Terminal). t.active + 1 < word) terminal_laws
      "Document.Dump" "w" dump (some 2) document (omega arith) (omega arith) (λ x p. refl)

-- The native side has one byte left.
abbrev one_left : Bytes → Pointer → Raw (ℕ × Bytes)
one_left [] p = ((0, []), pos 0)
one_left (b ∷ rest) p = ((1, 65 ∷ rest), pos 0)

abbrev buffer : Bytes
buffer = 0 ∷ 0 ∷ []

-- `Source.Read` takes an empty buffer for the end of the stream, `Document.Read` does not.
empty_buffer :
    ((source_read message terminal one_left [] document.handle).1
      ≡ ([], 0, some (sentinel (other 0))))
    × ((read message terminal one_left [] document.handle).1 ≡ ([], 0, none))
unfolding source_read read source_answer read_answer plain finished Terminals.new Terminals.acquire
    Terminals.release Terminals.take_locked
empty_buffer = (refl, refl)

-- A writer that keeps what it got, and takes two bytes of a chunk at most
abbrev half_writer : Writer Bytes
half_writer [] kept = (kept, 0, none)
half_writer (a ∷ []) kept = (a ∷ kept, 1, none)
half_writer (a ∷ b ∷ rest) kept = (b ∷ a ∷ kept, 2, none)

-- Native code hands over a chunk of three bytes, and what it left.
abbrev two_chunks : Pointer → Script
two_chunks p =
    hand_over (1 ∷ 2 ∷ 3 ∷ []) (λ answer. hand_over (3 ∷ []) (λ answer. end_call (dump 0 p)))

write_to-dump_to_example :
    let (after, ended) = dump_to message terminal half_writer two_chunks [] document in
    write_to message terminal half_writer two_chunks (some []) document ≡ (
      some after,
      played
          (λ p. reported half_writer (two_chunks p) [])
          0
          (Terminals.acquire "Document.Dump receiver" document.handle).1,
      ended,
    )
unfolding Terminals.new reported
write_to-dump_to_example =
    write_to-dump_to message terminal half_writer two_chunks [] document (λ p. few p)
  where
    few : (p : Pointer) → reported half_writer (two_chunks p) [] < word
    few p = omega arith

sum_codepoints-IsChecked_example :
    IsChecked
      (λ bits. 97)
      (pos 97 ∷ negsuc 0 ∷ [])
      (sum_codepoints (λ bits. 97) (pos 97 ∷ negsuc 0 ∷ []))
sum_codepoints-IsChecked_example = sum_codepoints-IsChecked (λ bits. 97) (pos 97 ∷ negsuc 0 ∷ [])
