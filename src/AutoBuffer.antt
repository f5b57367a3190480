-- ===== src/AutoBuffer.antt =====
-- sutils/AutoBuffer.cpp. malloc, realloc and free of the C library are an interface: operations on
-- a heap, and what the C standard says of the blocks that are live.
use vmodule.Base.{
  ℕ, zero, suc, ◌<◌, ◌≡◌, refl, sym, ap, ◌∙◌, Bool, true, false, Option, none, some, ◌==◌, ==_iff,
  if◌then◌else◌, arith, Bool-cases, inl, inr, ◌⊎◌,
}

pub record Allocator (H : Type 0) : Type 0 where
  pub live : H → ℕ → Bool
  pub malloc : ℕ → H → Option ℕ × H
  pub realloc : Option ℕ → ℕ → H → Option ℕ × H
  pub free : Option ℕ → H → H

-- p and s of an AutoBuffer.
pub record Buffer : Type 0 where
  pub p : Option ℕ
  pub s : ℕ

abbrev nothing : Buffer
nothing = record { p = none; s = 0 }

abbrev block : ℕ → ℕ → Buffer
block a n = record { p = some a; s = n }

module _ {H : Type 0} (c : Allocator H) where
  -- The constructor; `none` is std::bad_alloc.
  unfoldable pub new_auto_buffer : ℕ → H → Option Buffer × H
  new_auto_buffer zero h = (some nothing, h)
  new_auto_buffer (suc n) h =
      let (got, h') = c.malloc (suc n) h in
      elim got [ none ↦ (none, h') | some a ↦ (some (block a (suc n)), h') ]

  -- The destructor.
  unfoldable pub delete_auto_buffer : Buffer → H → H
  delete_auto_buffer b h = c.free b.p h

  unfoldable pub clear : Buffer → H → Buffer × H
  clear b h = (nothing, c.free b.p h)

  -- The methods that may throw: whether they return, the buffer and the heap after.
  unfoldable pub allocate : ℕ → Buffer → H → Bool × Buffer × H
  unfolding clear
  allocate zero b h = (true, (clear b h).0, (clear b h).1)
  allocate (suc n) b h =
      let (got, h') = c.malloc (suc n) (clear b h).1 in
      elim got [ none ↦ (false, (clear b h).0, h') | some a ↦ (true, block a (suc n), h') ]

  unfoldable pub resize : ℕ → Buffer → H → Bool × Buffer × H
  unfolding clear
  resize zero b h = (true, (clear b h).0, (clear b h).1)
  resize (suc n) b h =
      let (got, h') = c.realloc b.p (suc n) h in
      elim got [ none ↦ (false, b, h') | some a ↦ (true, block a (suc n), h') ]

  unfoldable pub attach : Option ℕ → ℕ → Buffer → H → Buffer × H
  unfolding clear
  attach none zero b h = (record { p = none; s = zero }, (clear b h).1)
  attach none (suc n) b h = clear b h
  attach (some a) zero b h = clear b h
  attach (some a) (suc n) b h = (block a (suc n), (clear b h).1)

  unfoldable pub detach : Buffer → Option ℕ × Buffer
  detach b = (b.p, nothing)

  -- What is live, the block at an optional address aside.
  abbrev pub is_at : Option ℕ → ℕ → Bool
  is_at none x = false
  is_at (some a) x = a == x

  -- Of two heaps: the live blocks are the same, but that one is gone and one has come.
  abbrev pub Swaps : H → Option ℕ → Option ℕ → H → Type 0
  Swaps h gone come h' =
      (x : ℕ)
      → c.live h' x ≡ (if is_at come x then true else if is_at gone x then false else c.live h x)

  -- A buffer owns a live block, or nothing.
  abbrev pub Owns : Buffer → H → Type 0
  Owns b h =
      ((b.p ≡ none) × (b.s ≡ 0)) ⊎ ((a : ℕ) × (b.p ≡ some a) × (c.live h a ≡ true) × (0 < b.s))

  -- The C standard on malloc, realloc and free.
  abbrev pub IsStandard : Type 0
  IsStandard =
      ((p : Option ℕ) (h : H) → Swaps h p none (c.free p h))
      × ((n : ℕ) (h : H) → Swaps h none (c.malloc n h).0 (c.malloc n h).1)
      × ((p : Option ℕ) (n : ℕ) (h : H) → elim (c.realloc p n h).0 as (λ _. Type 0) [
        | none ↦ Swaps h none none (c.realloc p n h).1
        | some a ↦ Swaps h p (some a) (c.realloc p n h).1
      ])

  Swaps-trans :
      (h h' h'' : H) (p q : Option ℕ) → Swaps h p none h' → Swaps h' none q h'' → Swaps h p q h''
  Swaps-trans h h' h'' p q s t x = t x ∙ ap (λ l. if is_at q x then true else l) (s x)

  Owns-block :
      (h h' : H) (p : Option ℕ) (a n : ℕ) → Swaps h p (some a) h' → Owns (block a (suc n)) h'
  Owns-block h h' p a n s = inr (a, refl, s a ∙ (rw ((==_iff a a).1 refl) refl), omega arith)

  -- A call keeps what the buffer owned, where it still owns it.
  Swaps-self : (b : Buffer) (h h' : H) → Owns b h → Swaps h none none h' → Swaps h b.p b.p h'
  Swaps-self b h h' (inl (null, s)) same x = rw null (same x)
  Swaps-self b h h' (inr (a, at, live, size)) same x = elim (Bool-cases (a == x)) [
    | inl e ↦ rw (at, e) (same x ∙ ap (c.live h) (sym ((==_iff a x).0 e)) ∙ live)
    | inr e ↦ rw (at, e) (same x)
  ]

  Owns-same : (b : Buffer) (h h' : H) → Owns b h → Swaps h none none h' → Owns b h'
  Owns-same b h h' (inl nil) same = inl nil
  Owns-same b h h' (inr (a, at, live, size)) same = inr (a, at, same a ∙ live, size)

  -- What a call that may throw promises: the buffer owns what it points to, no other block of the
  -- heap has come or gone, and the size is the one asked for when the call returns.
  abbrev pub IsSettled : Buffer → H → ℕ → Bool × Buffer × H → Type 0
  IsSettled b h n (returns, b', h') = Owns b' h' × Swaps h b.p b'.p h' × (returns ≡ true → b'.s ≡ n)

  -- With a standard allocator and a buffer that owns its block, allocate leaves a buffer that owns
  -- what it points to, no other block of the heap comes or goes, and the size is the one asked for
  -- when it returns; all this also when it throws.
  pub allocate-IsSettled :
      IsStandard → (n : ℕ) (b : Buffer) (h : H) → Owns b h → IsSettled b h n (allocate n b h)
  unfolding allocate clear
  allocate-IsSettled (frees, gives, moves) zero b h owns =
      (inl (refl, refl), frees b.p h, (λ e. refl))
  allocate-IsSettled (frees, gives, moves) (suc n) b h owns =
      go (c.malloc (suc n) (c.free b.p h)).0 (
        Swaps-trans h (c.free b.p h) (c.malloc (suc n) (c.free b.p h)).1 b.p
          (c.malloc (suc n) (c.free b.p h)).0 (frees b.p h) (gives (suc n) (c.free b.p h)))
    where
      go :
          (got : Option ℕ)
          → Swaps h b.p got (c.malloc (suc n) (c.free b.p h)).1
          → IsSettled b h (suc n) (elim got as (λ _. Bool × Buffer × H) [
            | none ↦ (false, nothing, (c.malloc (suc n) (c.free b.p h)).1)
            | some a ↦ (true, block a (suc n), (c.malloc (suc n) (c.free b.p h)).1)
          ])
      go none s = (inl (refl, refl), s, (λ e. cc))
      go (some a) s = (Owns-block h _ b.p a n s, s, (λ e. refl))

  -- With a standard allocator and a buffer that owns its block, resize leaves a buffer that owns
  -- what it points to, no other block of the heap comes or goes, and the size is the one asked for
  -- when it returns; all this also when it throws.
  pub resize-IsSettled :
      IsStandard → (n : ℕ) (b : Buffer) (h : H) → Owns b h → IsSettled b h n (resize n b h)
  unfolding resize clear
  resize-IsSettled (frees, gives, moves) zero b h owns =
      (inl (refl, refl), frees b.p h, (λ e. refl))
  resize-IsSettled (frees, gives, moves) (suc n) b h owns =
      go (c.realloc b.p (suc n) h).0 (moves b.p (suc n) h)
    where
      go :
          (got : Option ℕ)
          → elim got as (λ _. Type 0) [
            | none ↦ Swaps h none none (c.realloc b.p (suc n) h).1
            | some a ↦ Swaps h b.p (some a) (c.realloc b.p (suc n) h).1
          ]
          → IsSettled b h (suc n) (elim got as (λ _. Bool × Buffer × H) [
            | none ↦ (false, b, (c.realloc b.p (suc n) h).1)
            | some a ↦ (true, block a (suc n), (c.realloc b.p (suc n) h).1)
          ])
      go none same = (Owns-same b h _ owns same, Swaps-self b h _ owns same, (λ e. cc))
      go (some a) s = (Owns-block h _ b.p a n s, s, (λ e. refl))
