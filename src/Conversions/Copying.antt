-- ===== src/Conversions/Copying.antt =====
-- `zigoStatsSliceCopyFromRaw` against the slices that it should leave.
use Prim.Native.Nat.{min}
use zigo.Prelude.{
  ℕ, zero, suc, ◌+◌, ◌≤◌, ◌≡◌, refl, ap, ◌∙◌, ◌^◌, Option, none, some, List, [], ◌∷◌, ◌++◌, length,
  get_elem?, take, drop, if◌then◌else◌, ltb, arith,
}
use zigo.Conversions.{
  Stats, StatsData, stats_from_raw, stats_slice_from_raw, to_int, at_most, copy_one, copy_loop,
  rounds, stats_slice_copy_from_raw,
}

copy_one-cons :
    (i : ℕ) (o : Option StatsData) (d : Stats) (dst : List Stats)
    → copy_one (i + 1) o (d ∷ dst) ≡ d ∷ copy_one i o dst
copy_one-cons i none d dst = refl
copy_one-cons i (some value) d dst = ground arith

get_elem?-cons :
    (i : ℕ) (v : StatsData) (values : List StatsData)
    → get_elem? (v ∷ values) (i + 1) ≡ get_elem? values i
get_elem?-cons i v values = ground arith

-- The loop works on the two slices from the index on.
copy_loop-cons :
    (i left : ℕ) (v : StatsData) (values : List StatsData) (d : Stats) (dst : List Stats)
    → copy_loop (i + 1) left (v ∷ values) (d ∷ dst) ≡ d ∷ copy_loop i left values dst
unfolding copy_loop
copy_loop-cons i zero v values d dst = refl
copy_loop-cons i (suc left) v values d dst = rw (
  get_elem?-cons i v values,
  copy_one-cons i (get_elem? values i) d dst,
  copy_loop-cons (i + 1) left v values d (copy_one i (get_elem? values i) dst),
)

copy_loop_lem :
    (k : ℕ) (values : List StatsData) (dst : List Stats)
    → k ≤ length values
    → k ≤ length dst
    → copy_loop 0 k values dst ≡ stats_slice_from_raw (take k values) ++ drop k dst
unfolding copy_loop stats_slice_from_raw
copy_loop_lem zero values dst a b = refl
copy_loop_lem (suc k) [] dst a b = ground arith
copy_loop_lem (suc k) (v ∷ values) [] a b = ground arith
copy_loop_lem (suc k) (v ∷ values) (d ∷ dst) a b =
    copy_loop-cons 0 k v values (stats_from_raw v) dst
    ∙ ap (◌∷◌ (stats_from_raw v)) (copy_loop_lem k values dst (omega (arith, a)) (omega (arith, b)))

-- `zigoStatsSliceCopyFromRaw` after a native call that reported `result` entries: the first entries of
-- `dst` are the converted values, as many as were reported, both slices have and an `int` can count,
-- and the others are as they were; so no count that the native side reports makes it write outside.
pub stats_slice_copy_from_raw_lem :
    (dst : List Stats) (values : List StatsData) (result : ℕ)
    → let k = if ltb result (2 ^ 63) then min result (min (length dst) (length values)) else 0 in
      stats_slice_copy_from_raw dst values (to_int result)
      ≡ stats_slice_from_raw (take k values) ++ drop k dst
unfolding stats_slice_copy_from_raw
stats_slice_copy_from_raw_lem dst values result =
    let k : ℕ = if ltb result (2 ^ 63) then min result (min (length dst) (length values)) else 0 in
    let bounded : rounds (at_most (length values) (at_most (length dst) (to_int result))) ≡ k =
      ground arith in
    rw bounded (copy_loop_lem k values dst (ground arith) (ground arith))
