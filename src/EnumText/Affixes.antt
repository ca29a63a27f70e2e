-- ===== src/EnumText/Affixes.antt =====
-- A text between a prefix and a suffix.
use zigo.Prelude.{◌-◌, ◌≡◌, refl, ap, true, [], ◌∷◌, ◌++◌, length, length-append, take, drop, arith}
use zigo.EnumText.{Bytes, ==ᵇ, has_prefix, has_suffix, slice}

==ᵇ_refl : (s : Bytes) → ==ᵇ s s ≡ true
==ᵇ_refl [] = refl
==ᵇ_refl (c ∷ s) = ground (arith, ==ᵇ_refl s)

take-append_left : (s t : Bytes) → take (length s) (s ++ t) ≡ s
take-append_left [] t = refl
take-append_left (c ∷ s) t = ap (λ (q : Bytes). c ∷ q) (take-append_left s t)

drop-append_left : (s t : Bytes) → drop (length s) (s ++ t) ≡ t
drop-append_left [] t = refl
drop-append_left (c ∷ s) t = drop-append_left s t

pub has_prefix-append : (prefix s : Bytes) → has_prefix (prefix ++ s) prefix ≡ true
unfolding has_prefix
has_prefix-append prefix s = ground (
  arith,
  length-append prefix s,
  ap (λ (q : Bytes). ==ᵇ q prefix) (take-append_left prefix s),
  ==ᵇ_refl prefix,
)

pub has_suffix-append : (s suffix : Bytes) → has_suffix (s ++ suffix) suffix ≡ true
unfolding has_suffix
has_suffix-append s suffix =
    let from : length (s ++ suffix) - length suffix ≡ length s =
      omega (arith, length-append s suffix) in
    rw (from, drop-append_left s suffix, ==ᵇ_refl suffix) (ground (arith, length-append s suffix))

pub slice-append :
    (prefix s suffix : Bytes)
    → let text = prefix ++ (s ++ suffix) in
      slice text (length prefix) (length text - length suffix) ≡ s
unfolding slice
slice-append prefix s suffix =
    let to : length (prefix ++ (s ++ suffix)) - length suffix - length prefix ≡ length s =
      omega (arith, length-append prefix (s ++ suffix), length-append s suffix) in
    rw (to, drop-append_left prefix (s ++ suffix)) (take-append_left s suffix)
