-- ===== src/StringUtils/Blanks.antt =====
-- StringUtils::RemoveDuplicatedSpacesAndTabs. 9 is the tab, 32 the space.
use vmodule.Base.{
  ◌≡◌, refl, ap, Bool, true, false, ◌&&◌, ◌||◌, not, [], ◌∷◌, ◌==◌, if◌then◌else◌, Bool-cases, inl,
  inr,
}
use vmodule.StringUtils.Text.{Text}

-- The loop from the iterator on, at onSpace.
unfoldable pub blanks_loop : Bool → Text → Text
blanks_loop on_space [] = []
blanks_loop on_space (c ∷ s) =
    let c' = if c == 9 then 32 else c in
    let spaced = blanks_loop true s in
    let plain = blanks_loop false s in
    if c' == 32 then (if on_space then spaced else c' ∷ spaced) else c' ∷ plain

unfoldable pub remove_duplicated_spaces_and_tabs : Text → Text
unfolding blanks_loop
remove_duplicated_spaces_and_tabs str = blanks_loop false str

-- No tab, and no space after a space.
unfoldable pub is_single_spaced : Bool → Text → Bool
is_single_spaced on_space [] = true
is_single_spaced on_space (c ∷ s) =
    let spaced = is_single_spaced true s in
    let plain = is_single_spaced false s in
    not (c == 9) && (if c == 32 then not on_space && spaced else plain)

unfoldable pub words : Text → Text
words [] = []
words (c ∷ s) = let rest = words s in if (c == 9) || (c == 32) then rest else c ∷ rest

loop-single_spaced : (b : Bool) (s : Text) → is_single_spaced b (blanks_loop b s) ≡ true
unfolding blanks_loop is_single_spaced
loop-single_spaced b [] = refl
loop-single_spaced true (c ∷ s) = elim (Bool-cases (c == 9)) [
  | inl t ↦ rw t (loop-single_spaced true s)
  | inr t ↦ elim (Bool-cases (c == 32)) [
    | inl e ↦ rw (t, e) (loop-single_spaced true s)
    | inr e ↦ rw (t, e, t, e) (loop-single_spaced false s)
  ]
]
loop-single_spaced false (c ∷ s) = elim (Bool-cases (c == 9)) [
  | inl t ↦ rw t (loop-single_spaced true s)
  | inr t ↦ elim (Bool-cases (c == 32)) [
    | inl e ↦ rw (t, e, t, e) (loop-single_spaced true s)
    | inr e ↦ rw (t, e, t, e) (loop-single_spaced false s)
  ]
]

loop-words : (b : Bool) (s : Text) → words (blanks_loop b s) ≡ words s
unfolding blanks_loop words
loop-words b [] = refl
loop-words true (c ∷ s) = elim (Bool-cases (c == 9)) [
  | inl t ↦ rw t (loop-words true s)
  | inr t ↦ elim (Bool-cases (c == 32)) [
    | inl e ↦ rw (t, e) (loop-words true s)
    | inr e ↦ rw (t, e, t, e) (ap (λ r. c ∷ r) (loop-words false s))
  ]
]
loop-words false (c ∷ s) = elim (Bool-cases (c == 9)) [
  | inl t ↦ rw t (loop-words true s)
  | inr t ↦ elim (Bool-cases (c == 32)) [
    | inl e ↦ rw (t, e, t, e) (loop-words true s)
    | inr e ↦ rw (t, e, t, e) (ap (λ r. c ∷ r) (loop-words false s))
  ]
]

loop_idle : (b : Bool) (s : Text) → is_single_spaced b s ≡ true → blanks_loop b s ≡ s
unfolding blanks_loop is_single_spaced
loop_idle b [] h = refl
loop_idle true (c ∷ s) h = elim (Bool-cases (c == 9)) [
  | inl t ↦ cc (rw t at h)
  | inr t ↦ elim (Bool-cases (c == 32)) [
    | inl e ↦ cc (rw (t, e) at h)
    | inr e ↦ rw (t, e) (ap (λ r. c ∷ r) (loop_idle false s (rw (t, e) at h)))
  ]
]
loop_idle false (c ∷ s) h = elim (Bool-cases (c == 9)) [
  | inl t ↦ cc (rw t at h)
  | inr t ↦ elim (Bool-cases (c == 32)) [
    | inl e ↦ rw (t, e) (ap (λ r. c ∷ r) (loop_idle true s (rw (t, e) at h)))
    | inr e ↦ rw (t, e) (ap (λ r. c ∷ r) (loop_idle false s (rw (t, e) at h)))
  ]
]

-- The result of RemoveDuplicatedSpacesAndTabs has no tab and no space after a space, keeps the
-- other characters in order, and is left alone by a second run.
pub remove_duplicated_spaces_and_tabs_lem :
    (str : Text)
    → (is_single_spaced false (remove_duplicated_spaces_and_tabs str) ≡ true)
      × (words (remove_duplicated_spaces_and_tabs str) ≡ words str)
      × (remove_duplicated_spaces_and_tabs (remove_duplicated_spaces_and_tabs str)
          ≡ remove_duplicated_spaces_and_tabs str)
unfolding remove_duplicated_spaces_and_tabs
remove_duplicated_spaces_and_tabs_lem str = (
  loop-single_spaced false str,
  loop-words false str,
  loop_idle false (blanks_loop false str) (loop-single_spaced false str),
)
