-- ===== src/Handle/Scratch/Lending.antt =====
-- Who holds which buffer, in any interleaving of calls.
use zigo.Prelude.{
  ℕ, zero, suc, ◌+◌, ◌≤◌, ◌≡◌, refl, Bool, true, Option, none, some, List, [], ◌∷◌, if◌then◌else◌,
  ◌==◌, leb, ◌&&◌, arith,
}
use zigo.Handle.Scratch.{
  Buffer, Scratch, Action, takes, gives, releases, start, obtained, fitted, take, picked, give,
  release, step, run,
}

abbrev pub is_at : ℕ → Option ℕ → ℕ
is_at k none = 0
is_at k (some j) = if k == j then 1 else 0

-- How many of the buffers have their header, or their array, at the address `k`
abbrev pub uses : ℕ → Buffer → ℕ
uses k b = is_at k (some b.header) + is_at k b.array

abbrev pub uses_all : ℕ → List Buffer → ℕ
uses_all k [] = 0
uses_all k (b ∷ rest) = uses k b + uses_all k rest

abbrev pub uses_kept : ℕ → Option Buffer → ℕ
uses_kept k none = 0
uses_kept k (some b) = uses k b

abbrev pub holders : ℕ → Scratch → ℕ
holders k s = uses_kept k s.buffer + uses_all k s.lent

-- Every lent slice lies inside its array.
abbrev pub fits : List Buffer → Bool
fits [] = true
fits (b ∷ rest) = let more = fits rest in leb b.length b.capacity && more

pub record Inv (s : Scratch) : Type 0 where
  pub once : (k : ℕ) → holders k s ≤ 1
  pub fresh : (k : ℕ) → s.next ≤ k → holders k s ≡ 0
  pub inside : fits s.lent ≡ true

picked-uses :
    (k i : ℕ) (bs : List Buffer)
    → uses_kept k (picked i bs).0 + uses_all k (picked i bs).1 ≡ uses_all k bs
picked-uses k i [] = refl
picked-uses k zero (b ∷ rest) = refl
picked-uses k (suc i) (b ∷ rest) = omega (arith, picked-uses k i rest)

picked-fits : (i : ℕ) (bs : List Buffer) → fits bs ≡ true → fits (picked i bs).1 ≡ true
picked-fits i [] h = refl
picked-fits zero (b ∷ rest) h = ground arith
picked-fits (suc i) (b ∷ rest) h = ground (arith, picked-fits i rest)

takes-once :
    (n k : ℕ) (s : Scratch)
    → holders k s ≤ 1
    → (s.next ≤ k → holders k s ≡ 0)
    → holders k (take n s).0 ≤ 1
unfolding take obtained fitted
takes-once n k s once fresh = ground arith

takes-fresh :
    (n k : ℕ) (s : Scratch)
    → (s.next ≤ k → holders k s ≡ 0)
    → (take n s).0.next ≤ k
    → holders k (take n s).0 ≡ 0
unfolding take obtained fitted
takes-fresh n k s fresh h = ground arith

takes-inside : (n : ℕ) (s : Scratch) → fits s.lent ≡ true → fits (take n s).0.lent ≡ true
unfolding take obtained fitted
takes-inside n s inside = ground arith

takes-Inv : (n : ℕ) (s : Scratch) → Inv s → Inv (take n s).0
takes-Inv n s v = record {
  once = λ k. takes-once n k s (v.once k) (v.fresh k);
  fresh = λ k. takes-fresh n k s (v.fresh k);
  inside = takes-inside n s v.inside;
}

-- A buffer that is given back when another one is kept is dropped.
gives-holders : (i k : ℕ) (s : Scratch) → holders k (give i s) ≤ holders k s
unfolding give
gives-holders i k s = ground (arith, picked-uses k i s.lent)

gives-next : (i : ℕ) (s : Scratch) → (give i s).next ≡ s.next
unfolding give
gives-next i s = ground arith

gives-Inv : (i : ℕ) (s : Scratch) → Inv s → Inv (give i s)
unfolding give
gives-Inv i s v = record {
  once = λ k. omega (arith, gives-holders i k s, v.once k);
  fresh = λ k h. ground (arith, gives-holders i k s, v.fresh k, gives-next i s);
  inside = ground (arith, picked-fits i s.lent v.inside);
}

step-Inv : (s : Scratch) (a : Action) → Inv s → Inv (step s a)
unfolding step release
step-Inv s (takes n) v = takes-Inv n s v
step-Inv s (gives i) v = gives-Inv i s v
step-Inv s releases v = record {
  once = λ k. omega (arith, v.once k);
  fresh = λ k h. omega (arith, v.fresh k h);
  inside = v.inside;
}

run-Inv : (s : Scratch) (actions : List Action) → Inv s → Inv (run s actions)
unfolding run
run-Inv s [] v = v
run-Inv s (a ∷ rest) v = run-Inv (step s a) rest (step-Inv s a v)

start-Inv : Inv start
unfolding start
start-Inv = record { once = λ k. ground arith; fresh = λ k h. refl; inside = refl }

-- However calls that take, give back and release the buffer of a handle interleave, no slice header and
-- no array is in the hands of two calls, or of a call and of the handle; and every slice that is lent
-- lies inside its array.
pub run-holders :
    (actions : List Action) (k : ℕ)
    → (holders k (run start actions) ≤ 1) × (fits (run start actions).lent ≡ true)
run-holders actions k = let v = run-Inv start actions start-Inv in (v.once k, v.inside)
