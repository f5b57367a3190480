-- ===== src/FileUtils/Current.antt =====
-- GetCurrentDirectory of sutils/FileUtils.cpp on POSIX. The buffer is the list of its bytes; a read or
-- write outside of it is a fault (`none`). `readlink` tells how many bytes it put, and the buffer then.
use vmodule.Base.{
  ℕ, zero, suc, ◌+◌, ◌<◌, ◌≡◌, refl, sym, ap, ◌∙◌, false, Option, none, some, [], ◌∷◌, ◌++◌, length,
  has, get_elem?, ◌==◌, leb, if◌then◌else◌, ℤ, pos, negsuc, arith,
}
use vmodule.StringUtils.Text.{Text}
use vmodule.Queue.Chain.{has-cons, ==_false}

-- name[i] = c
abbrev put : ℕ → ℕ → Text → Option Text
put i c [] = none
put zero c (d ∷ name) = some (c ∷ name)
put (suc i) c (d ∷ name) = elim (put i c name) [ none ↦ none | some name' ↦ some (d ∷ name') ]

-- A round, where name[i] is `found`.
abbrev at_slash : Option ℕ → ℕ → Text → Option Text → Option Text
at_slash none i name rest = none
at_slash (some c) i name rest = if c == 47 then put (i + 1) 0 name else rest

-- The loop from i down to 0.
unfoldable cut_after_slash : ℕ → Text → Option Text
cut_after_slash zero name = at_slash (get_elem? name zero) zero name (some name)
cut_after_slash (suc i) name =
    at_slash (get_elem? name (suc i)) (suc i) name (cut_after_slash i name)

abbrev strlen : Text → Option ℕ
strlen [] = none
strlen (c ∷ name) =
    let rest = strlen name in
    if c == 0 then some 0 else elim rest [ none ↦ none | some n ↦ some (suc n) ]

abbrev measured : Option Text → Option (ℤ × Text)
measured none = none
measured (some name) = elim (strlen name) [ none ↦ none | some n ↦ some (pos n, name) ]

unfoldable pub get_current_directory :
    (readlink : ℕ → Text → Option (ℕ × Text)) → (size : ℕ) → Text → Option (ℤ × Text)
unfolding cut_after_slash
get_current_directory readlink size name = elim (readlink size name) [
  | none ↦ some (negsuc 0, name)
  | some (cnt, name') ↦
      if leb size cnt then some (negsuc 0, name') else measured (cut_after_slash cnt name')
]

get-middle :
    (xs : Text) (y : ℕ) (ys : Text) (j : ℕ)
    → get_elem? (xs ++ y ∷ ys) (length xs + j) ≡ get_elem? (y ∷ ys) j
get-middle [] y ys j = let e : 0 + j ≡ j = omega arith in rw e refl
get-middle (x ∷ xs) y ys j =
    let e : suc (length xs) + j ≡ suc (length xs + j) = omega arith in rw e (get-middle xs y ys j)

put-middle :
    (xs : Text) (y c z : ℕ) (ys : Text)
    → put (length xs + 1) c (xs ++ y ∷ z ∷ ys) ≡ some (xs ++ y ∷ c ∷ ys)
put-middle [] y c z ys = refl
put-middle (x ∷ xs) y c z ys =
    let e : suc (length xs) + 1 ≡ suc (length xs + 1) = omega arith in
    rw (e, put-middle xs y c z ys) refl

strlen-append :
    (xs : Text) (ys : Text) → has 0 xs ≡ false → strlen (xs ++ 47 ∷ 0 ∷ ys) ≡ some (length xs + 1)
strlen-append [] ys h = refl
strlen-append (x ∷ xs) ys h =
    let (other, rest) = has-cons 0 x xs h in
    rw (==_false 0 x other, strlen-append xs ys rest) (ap some (omega arith))

found :
    (i : ℕ) (name : Text) → get_elem? name i ≡ some 47 → cut_after_slash i name ≡ put (i + 1) 0 name
unfolding cut_after_slash
found zero name e = rw (cut_after_slash, e) refl
found (suc i) name e = rw (cut_after_slash, e) refl

passed :
    (i : ℕ) (name : Text) (c : ℕ)
    → get_elem? name (suc i) ≡ some c
    → (c == 47) ≡ false
    → cut_after_slash (suc i) name ≡ cut_after_slash i name
unfolding cut_after_slash
passed i name c e n = rw (cut_after_slash, e, n) refl

-- The first j + 1 bytes of a text are no slashes.
abbrev pub NoSlash : ℕ → Text → Type 0
NoSlash j ys = (i : ℕ) → i < j → (c : ℕ) × (get_elem? ys i ≡ some c) × ((c == 47) ≡ false)

module _ (dir : Text) (z : ℕ) (ys : Text) where
  cut_at :
      (j : ℕ)
      → NoSlash j (z ∷ ys)
      → cut_after_slash (length dir + j) (dir ++ 47 ∷ z ∷ ys) ≡ some (dir ++ 47 ∷ 0 ∷ ys)
  cut_at zero h =
      let e : length dir + 0 ≡ length dir = omega arith in
      let name = dir ++ 47 ∷ z ∷ ys in
      ap (λ i. cut_after_slash i name) e
      ∙ found (length dir) name (ap (get_elem? name) (sym e) ∙ get-middle dir 47 (z ∷ ys) 0)
      ∙ put-middle dir 47 0 z ys
  cut_at (suc j) h =
      let e : length dir + suc j ≡ suc (length dir + j) = omega arith in
      let name = dir ++ 47 ∷ z ∷ ys in
      let (c, at, n) = h j (omega arith) in
      ap (λ i. cut_after_slash i name) e
      ∙ passed (length dir + j) name c
          (ap (get_elem? name) (sym e) ∙ get-middle dir 47 (z ∷ ys) (suc j) ∙ at) n
      ∙ cut_at j (λ i l. h i (omega arith))

  -- Where readlink puts a path that fits, with a slash in it, no zero byte before that slash and no
  -- slash after it, and the byte of the buffer after the path is no slash either,
  -- GetCurrentDirectory does not leave its buffer, keeps the path up to that slash, and returns its
  -- length.
  pub get_current_directory-dir :
      (readlink : ℕ → Text → Option (ℕ × Text)) (size j : ℕ) (name : Text)
      → has 0 dir ≡ false
      → length dir + j < size
      → readlink size name ≡ some (length dir + j, dir ++ 47 ∷ z ∷ ys)
      → NoSlash j (z ∷ ys)
      → get_current_directory readlink size name ≡ some (pos (length dir + 1), dir ++ 47 ∷ 0 ∷ ys)
  unfolding get_current_directory
  get_current_directory-dir readlink size j name no_zero fits e h =
      let room : leb size (length dir + j) ≡ false = ground arith in
      rw (get_current_directory, e, room, cut_at j h, measured, strlen-append dir ys no_zero) refl
