-- ===== src/BlockingQueue/Order.antt =====
-- The order of the items that go through a blocking queue, whatever the threads do.
use vmodule.Base.{
  ℕ, ◌≡◌, sym, ap, subst, ◌∙◌, Bool, true, false, ◌&&◌, Bool-cases, inl, inr, Option, none, some,
  List, [], ◌∷◌, ◌++◌, append-nil, append_assoc, if◌then◌else◌, All, some_inj, arith,
}
use vmodule.BlockingQueue.{
  Buffer, Blocking, blocking_en_queue, returns, blocking_de_queue, after_wait, pick, wake, Move,
  enqueues, dequeues, wakes, move, run_moves, enqueued, all_enqueued,
}

-- What the queue is to keep to: it holds a list, EnQueue of a proper item adds it at the end or does
-- nothing, and DeQueue takes the first.
pub record BufferView (S : Type 0) : Type 1 where
  pub Holds : S → List ℕ → Type 0
  pub Proper : ℕ → Type 0

abbrev pub ProperMove : {S : Type 0} → BufferView S → Move → Type 0
ProperMove view (enqueues item) = view.Proper item
ProperMove view (dequeues timed) = Unit
ProperMove view (wakes i timed_out) = Unit

module _ {S : Type 0} (buffer : Buffer S) (view : BufferView S) where
  abbrev pub PopLaw : List ℕ → S → Option ℕ × S → Type 0
  PopLaw [] s got = got ≡ (none, s)
  PopLaw (item ∷ rest) s got = (got.0 ≡ some item) × view.Holds (got.1) rest

  pub record IsBuffer : Type 0 where
    pub pushes :
        (item : ℕ) (s : S) (xs : List ℕ)
        → view.Holds s xs
        → view.Proper item
        → buffer.accepts item s ≡ true
        → view.Holds (buffer.push item s) (xs ++ item ∷ [])
    pub refuses : (item : ℕ) (s : S) → buffer.accepts item s ≡ false → buffer.push item s ≡ s
    pub pops : (s : S) (xs : List ℕ) → view.Holds s xs → PopLaw xs s (buffer.pop s)

module _ {S : Type 0} {buffer : Buffer S} {view : BufferView S} (law : IsBuffer buffer view) where
  -- What has come out, and what is still held, is all that went in, in order.
  abbrev pub InOrder : List ℕ → Blocking S → Type 0
  InOrder put b = (xs : List ℕ) × view.Holds b.held xs × (b.taken ++ xs ≡ put)

  returns-InOrder :
      (put xs : List ℕ) (b : Blocking S)
      → view.Holds b.held xs
      → b.taken ++ xs ≡ put
      → (got : Option ℕ × S) → PopLaw buffer view xs b.held got
      → InOrder put (returns buffer got b)
  returns-InOrder put [] b holds e (none, s) h =
      ([], subst (λ s'. view.Holds s' []) (sym (ap (λ p. p.1) h)) holds, e)
  returns-InOrder put [] b holds e (some item, s) h = absurd (ground arith)
  returns-InOrder put (x ∷ xs) b holds e (none, s) (h, now) = absurd (ground arith)
  returns-InOrder put (x ∷ xs) b holds e (some item, s) (h, now) =
      let same : item ≡ x = some_inj h in (xs, now, append_assoc b.taken (item ∷ []) xs ∙ rw same e)

  pops-InOrder :
      (put : List ℕ) (b : Blocking S)
      → InOrder put b
      → InOrder put (returns buffer (buffer.pop b.held) b)
  pops-InOrder put b (xs, holds, e) =
      returns-InOrder put xs b holds e (buffer.pop b.held) (law.pops b.held xs holds)

  either-InOrder :
      (t : Bool) (put : List ℕ) (b b' : Blocking S)
      → InOrder put b
      → InOrder put b'
      → InOrder put (if t then b else b')
  either-InOrder true put b b' h h' = h
  either-InOrder false put b b' h h' = h'

  move-InOrder :
      (m : Move) (put : List ℕ) (b : Blocking S)
      → ProperMove view m
      → InOrder put b
      → InOrder (put ++ enqueued buffer m b) (move buffer m b)
  unfolding move blocking_en_queue blocking_de_queue wake
  move-InOrder (enqueues item) put b proper (xs, holds, e) =
      elim (Bool-cases (buffer.accepts item b.held)) [
        | inl y ↦ rw y (
          xs ++ item ∷ [],
          law.pushes item b.held xs holds proper y,
          sym (append_assoc b.taken xs (item ∷ [])) ∙ ap (λ r. r ++ item ∷ []) e,
        )
        | inr y ↦
            let same = law.refuses item b.held y in
            rw y (xs, subst (λ s. view.Holds s xs) (sym same) holds, e ∙ sym (append-nil put))
      ]
  move-InOrder (dequeues timed) put b proper h =
      rw (append-nil put) (either-InOrder (buffer.is_empty b.held) put _ _ h (pops-InOrder put b h))
  move-InOrder (wakes i timed_out) put b proper h =
      rw (append-nil put) (go (pick buffer i b.waiting))
    where
      go :
          (picked : Option (Bool × List Bool))
          → InOrder put (elim picked [
            | none ↦ b
            | some p ↦ after_wait buffer (p.0) timed_out (record b { waiting = p.1 })
          ])
      go none = h
      go (some (timed, rest)) =
          either-InOrder (timed && timed_out) put _ _ h
            (pops-InOrder put (record b { waiting = rest }) h)

  pub run_moves-InOrder :
      (ms : List Move) (put : List ℕ) (b : Blocking S)
      → All (ProperMove view) ms
      → InOrder put b
      → InOrder (put ++ all_enqueued buffer ms b) (run_moves buffer ms b)
  unfolding run_moves all_enqueued
  run_moves-InOrder [] put b proper h = rw (append-nil put) h
  run_moves-InOrder (m ∷ ms) put b (proper, more) h =
      let e = append_assoc put (enqueued buffer m b) (all_enqueued buffer ms (move buffer m b)) in
      subst (λ p. InOrder p (run_moves buffer (m ∷ ms) b)) e
        (run_moves-InOrder ms (put ++ enqueued buffer m b) (move buffer m b) more
          (move-InOrder m put b proper h))
