-- ===== src/StringUtils/Slices.antt =====
-- StringUtils::Left, Mid and Right. A size_t has 64 bits; `none` is a failed assert or a thrown
-- std::out_of_range.
use Prim.Native.Nat.{min, max}
use vmodule.Base.{
  ℕ, zero, suc, ◌+◌, ◌-◌, ◌%◌, ◌^◌, ◌<◌, ◌≤◌, ◌≡◌, refl, false, Option, none, some, [], arith, ltb,
  ltb→lt, leb, le→leb, if◌then◌else◌, length, take, drop, take_all, drop_all, length-drop,
  Bool-cases, inl, inr,
}
use vmodule.StringUtils.Text.{Text, substr, substr_count}

unfoldable pub left : Text → ℕ → Option Text
unfolding substr_count
left str count = substr_count str 0 (max 0 (min count (length str)))

unfoldable pub mid : Text → ℕ → ℕ → Option Text
unfolding substr_count
mid str first count =
    let count' =
      if ltb (length str) ((first + count) % 2 ^ 64)
      then (length str + (2 ^ 64 - first)) % 2 ^ 64
      else count in
    if ltb (length str) first
    then some []
    else if leb ((first + count') % 2 ^ 64) (length str)
    then substr_count str first count'
    else none

unfoldable pub right : Text → ℕ → Option Text
unfolding substr
right str count = substr str (length str - max 0 (min count (length str)))

take_cap : (n : ℕ) (s : Text) → take (max 0 (min n (length s))) s ≡ take n s
take_cap n s = elim (Bool-cases (leb n (length s))) [
  | inl e ↦ let m : max 0 (min n (length s)) ≡ n = ground arith in rw m
  | inr e ↦
      let m : max 0 (min n (length s)) ≡ length s = ground arith in
      rw (m, take_all (length s) s (omega arith), take_all n s (ground arith))
]

-- Left gives the first `count` characters and Right the last, and all of them when there are fewer;
-- neither throws.
pub left-right :
    (str : Text) (count : ℕ)
    → (left str count ≡ some (take count str))
      × (right str count ≡ some (drop (length str - count) str))
unfolding left right substr substr_count
left-right str count =
    let m : length str - max 0 (min count (length str)) ≡ length str - count = ground arith in
    (
      rw (le→leb 0 (length str) (omega arith), take_cap count str),
      rw (m, le→leb (length str - count) (length str) (omega arith)),
    )

nothing : (count : ℕ) → some [] ≡ some (take {A = ℕ} count [])
nothing zero = refl
nothing (suc count) = refl

ltb→le : (a b : ℕ) → ltb b a ≡ false → a ≤ b
ltb→le a b h = ground arith

-- For sizes below 2 ^ 64, Mid gives the `count` characters from `first` on, or as many as there
-- are, also where the sum of the two overflows; its assert never fails.
pub mid-take-drop :
    (str : Text) (first count : ℕ)
    → length str < 2 ^ 64
    → first < 2 ^ 64
    → count < 2 ^ 64
    → mid str first count ≡ some (take count (drop first str))
unfolding mid substr_count
mid-take-drop str first count hs hf hc = elim (Bool-cases (ltb (length str) first)) [
  | inl e ↦ rw (e, drop_all first str (omega (arith, ltb→lt (length str) first e))) (nothing count)
  | inr e ↦ elim (Bool-cases (ltb (length str) ((first + count) % 2 ^ 64))) [
    | inl over ↦
        let f : first ≤ length str = ltb→le first (length str) e in
        let o : length str < (first + count) % 2 ^ 64 = ltb→lt (length str) _ over in
        let c : (length str + (2 ^ 64 - first)) % 2 ^ 64 ≡ length str - first = omega arith in
        let d : (first + (length str - first)) % 2 ^ 64 ≡ length str = omega arith in
        rw (
          e,
          over,
          c,
          d,
          le→leb (length str) (length str) (omega arith),
          le→leb first (length str) f,
          take_all (length str - first) (drop first str) (omega (arith, length-drop first str)),
          take_all count (drop first str) (omega (arith, length-drop first str)),
        )
    | inr fits ↦ rw (
      e,
      fits,
      le→leb ((first + count) % 2 ^ 64) (length str) (ltb→le _ (length str) fits),
      le→leb first (length str) (ltb→le first (length str) e),
    )
  ]
]
