-- ===== src/Queue/Chain.antt =====
-- What a queue's links stand for: the items between fHead and fHead, in both directions.
use vmodule.Base.{
  ℕ, ◌≡◌, refl, sym, ap, ◌∙◌, Bool, true, false, not, ◌&&◌, ◌||◌, List, [], ◌∷◌, ◌++◌, arith, ◌==◌,
  ==_iff, has, Bool-cases, inl, inr,
}
use vmodule.Queue.{write}

abbrev pub Chain : (ℕ → ℕ) → (ℕ → ℕ) → ℕ → List ℕ → ℕ → Type 0
Chain next prev a [] b = (next a ≡ b) × (prev b ≡ a)
Chain next prev a (x ∷ xs) b = (next a ≡ x) × (prev x ≡ a) × Chain next prev x xs b

abbrev pub last : ℕ → List ℕ → ℕ
last a [] = a
last a (x ∷ xs) = last x xs

abbrev pub is_distinct : List ℕ → Bool
is_distinct [] = true
is_distinct (x ∷ xs) = not (has x xs) && is_distinct xs

pub write-same {ℓ} : {A : Type ℓ} (f : ℕ → A) (a : ℕ) (v : A) → write f a v a ≡ v
unfolding write
write-same f a v = rw ((==_iff a a).1 refl) refl

pub write-other {ℓ} :
    {A : Type ℓ} (f : ℕ → A) (a : ℕ) (v : A) (x : ℕ) → (a == x) ≡ false → write f a v x ≡ f x
unfolding write
write-other f a v x e = rw e refl

pub last-prev :
    (next prev : ℕ → ℕ) (a : ℕ) (xs : List ℕ) (b : ℕ) → Chain next prev a xs b → prev b ≡ last a xs
last-prev next prev a [] b (n, p) = p
last-prev next prev a (x ∷ xs) b (n, p, c) = last-prev next prev x xs b c

==_sym : (a b : ℕ) → (a == b) ≡ (b == a)
==_sym a b = ground arith

pub ==_false : (a b : ℕ) → (a == b) ≡ false → (b == a) ≡ false
==_false a b h = ==_sym b a ∙ h

&&-true : (a b : Bool) → (a && b) ≡ true → (a ≡ true) × (b ≡ true)
&&-true true b h = (refl, h)
&&-true false b h = cc

||-false : (a b : Bool) → (a || b) ≡ false → (a ≡ false) × (b ≡ false)
||-false true b h = cc
||-false false b h = (refl, h)

not-true : (a : Bool) → not a ≡ true → a ≡ false
not-true true h = cc
not-true false h = refl

pub is_distinct-cons :
    (x : ℕ) (xs : List ℕ)
    → is_distinct (x ∷ xs) ≡ true
    → (has x xs ≡ false) × (is_distinct xs ≡ true)
is_distinct-cons x xs h = (not-true _ (&&-true _ _ h).0, (&&-true _ _ h).1)

pub has-cons :
    (a x : ℕ) (xs : List ℕ) → has a (x ∷ xs) ≡ false → ((a == x) ≡ false) × (has a xs ≡ false)
has-cons a x xs h = ||-false _ _ h

-- A write of next outside what the chain starts from, and of prev outside what it ends in.
pub Chain-frame :
    (next prev : ℕ → ℕ) (i u j v : ℕ) (a : ℕ) (xs : List ℕ) (b : ℕ)
    → has i (a ∷ xs) ≡ false
    → has j xs ≡ false
    → (j == b) ≡ false
    → Chain next prev a xs b
    → Chain (write next i u) (write prev j v) a xs b
Chain-frame next prev i u j v a [] b hi hj hb (n, p) =
    (write-other next i u a (has-cons i a [] hi).0 ∙ n, write-other prev j v b hb ∙ p)
Chain-frame next prev i u j v a (x ∷ xs) b hi hj hb (n, p, c) = (
  write-other next i u a (has-cons i a (x ∷ xs) hi).0 ∙ n,
  write-other prev j v x (has-cons j x xs hj).0 ∙ p,
  Chain-frame next prev i u j v x xs b (has-cons i a (x ∷ xs) hi).1 (has-cons j x xs hj).1 hb c,
)

pub last-has : (a : ℕ) (xs : List ℕ) (y : ℕ) → has y (a ∷ xs) ≡ false → (y == last a xs) ≡ false
last-has a [] y h = (has-cons y a [] h).0
last-has a (x ∷ xs) y h = last-has x xs y (has-cons y a (x ∷ xs) h).1

-- EnQueue's four writes.
pub Chain-extend :
    (next prev : ℕ → ℕ) (a : ℕ) (xs : List ℕ) (b item : ℕ)
    → is_distinct (a ∷ xs) ≡ true
    → has item (a ∷ xs) ≡ false
    → has b xs ≡ false
    → (item == b) ≡ false
    → Chain next prev a xs b
    → Chain
        (write (write next (last a xs) item) item b)
        (write (write prev item (last a xs)) b item)
        a
        (xs ++ item ∷ [])
        b
Chain-extend next prev a [] b item d hi hb ib (n, p) = (
  write-other _ item b a (has-cons item a [] hi).0 ∙ write-same next a item,
  write-other _ b item item (==_false item b ib) ∙ write-same prev item a,
  (write-same _ item b, write-same _ b item),
)
Chain-extend next prev a (x ∷ xs) b item d hi hb ib (n, p, c) =
    let (fresh, d') = is_distinct-cons a (x ∷ xs) d in
    let (hia, hixs) = has-cons item a (x ∷ xs) hi in
    let (hbx, hbxs) = has-cons b x xs hb in
    (
      write-other _ item b a hia
          ∙ write-other next (last x xs) item a (==_false a (last x xs) (last-has x xs a fresh))
          ∙ n,
      write-other _ b item x hbx
          ∙ write-other prev item (last x xs) x (has-cons item x xs hixs).0
          ∙ p,
      Chain-extend next prev x xs b item d' hixs hbxs ib c,
    )

pub write-at {ℓ} : {A : Type ℓ} (f : ℕ → A) (a : ℕ) (v : A) (x : ℕ) → a ≡ x → write f a v x ≡ v
write-at f a v x e = ap (write f a v) (sym e) ∙ write-same f a v

pub has-append : (i : ℕ) (xs ys : List ℕ) → has i (xs ++ ys) ≡ (has i xs || has i ys)
has-append i [] ys = refl
has-append i (x ∷ xs) ys = elim (Bool-cases (i == x)) [
  | inl e ↦ rw e refl
  | inr e ↦ rw e (has-append i xs ys)
]

pub has-append_false :
    (i : ℕ) (xs ys : List ℕ) → has i (xs ++ ys) ≡ false → (has i xs ≡ false) × (has i ys ≡ false)
has-append_false i xs ys h = ||-false _ _ (sym (has-append i xs ys) ∙ h)

-- What follows an item is in the chain, or its end.
next-other :
    (next prev : ℕ → ℕ) (a : ℕ) (xs : List ℕ) (b y : ℕ)
    → has y xs ≡ false
    → (y == b) ≡ false
    → Chain next prev a xs b
    → (next a == y) ≡ false
next-other next prev a [] b y h yb (n, p) = ap (λ t. t == y) n ∙ ==_false y b yb
next-other next prev a (x ∷ xs) b y h yb (n, p, c) =
    ap (λ t. t == y) n ∙ ==_false y x (has-cons y x xs h).0

-- The two writes that take an item out.
pub Chain-unlink :
    (next prev : ℕ → ℕ) (a : ℕ) (ps : List ℕ) (item : ℕ) (qs : List ℕ) (b : ℕ)
    → is_distinct (a ∷ (ps ++ item ∷ qs)) ≡ true
    → has b (ps ++ item ∷ qs) ≡ false
    → Chain next prev a (ps ++ item ∷ qs) b
    → Chain (write next (last a ps) (next item)) (write prev (next item) (last a ps)) a (ps ++ qs) b
Chain-unlink next prev a [] item [] b d hb (n, p, (n', p')) =
    (write-same next a (next item) ∙ n', write-at prev (next item) a b n')
Chain-unlink next prev a [] item (y ∷ ys) b d hb (n, p, (n', p', c)) =
    let (fresh, d1) = is_distinct-cons a (item ∷ y ∷ ys) d in
    let (fresh', d2) = is_distinct-cons item (y ∷ ys) d1 in
    let (y_once, d3) = is_distinct-cons y ys d2 in
    let b_other = has-cons b y ys (has-cons b item (y ∷ ys) hb).1 in
    (
      write-same next a (next item) ∙ n',
      write-at prev (next item) a y n',
      Chain-frame next prev a (next item) (next item) a y ys b (has-cons a item (y ∷ ys) fresh).1
          (ap (λ t. has t ys) n' ∙ y_once) (ap (λ t. t == b) n' ∙ ==_false b y b_other.0) c,
    )
Chain-unlink next prev a (x ∷ ps) item qs b d hb (n, p, c) =
    let (fresh, d1) = is_distinct-cons a (x ∷ (ps ++ item ∷ qs)) d in
    let (x_once, d2) = is_distinct-cons x (ps ++ item ∷ qs) d1 in
    let (a_x, a_rest) = has-cons a x (ps ++ item ∷ qs) fresh in
    let (b_x, b_rest) = has-cons b x (ps ++ item ∷ qs) hb in
    (
      write-other next (last x ps) (next item) a (
            ==_false a (last x ps)
              (last-has x ps a (has-join a_x (has-append_false a ps (item ∷ qs) a_rest).0)))
          ∙ n,
      write-other prev (next item) (last x ps) x (
            next-other next prev item qs b x
              (has-cons x item qs (has-append_false x ps (item ∷ qs) x_once).1).1 (==_false b x b_x)
              (Chain-rest x ps c))
          ∙ p,
      Chain-unlink next prev x ps item qs b d1 b_rest c,
    )
  where
    has-join : (a == x) ≡ false → has a ps ≡ false → has a (x ∷ ps) ≡ false
    has-join e f = rw (e, f) refl

    Chain-rest :
        (a : ℕ) (ps : List ℕ) → Chain next prev a (ps ++ item ∷ qs) b → Chain next prev item qs b
    Chain-rest a [] (n, p, c) = c
    Chain-rest a (x ∷ ps) (n, p, c) = Chain-rest x ps c

-- What stands before an item.
pub prev-last :
    (next prev : ℕ → ℕ) (a : ℕ) (ps : List ℕ) (item : ℕ) (qs : List ℕ) (b : ℕ)
    → Chain next prev a (ps ++ item ∷ qs) b
    → prev item ≡ last a ps
prev-last next prev a [] item qs b (n, p, c) = p
prev-last next prev a (x ∷ ps) item qs b (n, p, c) = prev-last next prev x ps item qs b c
