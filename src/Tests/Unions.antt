-- ===== src/Tests/Unions.antt =====
-- The projections of a union that holds `ticks = 30`.
use zigo.Prelude.{◌≡◌, refl, none, some, []}
use zigo.Prelude.Int.{pos}
use zigo.Handle.Common.{ok}
use zigo.Handle.EventQueue as Queue
use zigo.Handle.EventQueue.{EventQueue}
use zigo.Handle.Stream.Calls.{queue_parent}
use zigo.TaggedUnion.{Raw, signal_ticks, signal_variant, signal_snapshot, variant_of, finish}

abbrev native : Raw
native = record {
  project_tag = λ p. (1, pos 1);
  project_ticks = λ p. (30, pos 1);
  project_level = λ p. (0, pos 0);
  project_offset = λ p. (0, pos 0);
  project_mode = λ p. (0, pos 0);
  project_active = λ p. (0, pos 0);
  read_snapshot =
      λ p. (record { tag = 1; level = 0; ticks = 30; offset = 0; mode = 0; active = 0 }, pos 1);
  panic_message = λ code. "reached unreachable code";
}

abbrev signal : EventQueue
signal = Queue.new (some 7) [] none

signal_read : (signal_variant queue_parent native signal).2 ≡ ok (signal_ticks 30)
unfolding signal_variant signal_snapshot variant_of finish Queue.new Queue.acquire Queue.release
signal_read = refl
