-- ===== src/Socket/Receive.antt =====
-- Readn of socket/Socket.cpp, on a descriptor that behaves as the manual pages say.
use vmodule.Base.{
  ℕ, zero, suc, ◌+◌, ◌-◌, ◌≤◌, ◌<◌, ◌≡◌, refl, sym, ap, subst, ◌∙◌, ◌⊎◌, inl, inr, false,
  Bool-cases, Option, some, List, [], ◌∷◌, ◌++◌, append_assoc, ◌==◌, length, length-append, ℤ, pos,
  negsuc, arith,
}
use vmodule.System.{Reply, failed, done, eintr, Stream}
use vmodule.System.Laws.{View, ReadLaw, IsStream}
use vmodule.Socket.{readn, readn_loop, readn_round}

module _ {K : Type 0} {s : Stream K} {v : View K} (law : IsStream v s) where
  -- What Readn of n bytes leaves: the buffer is what came off the descriptor; all n bytes or up to
  -- the end, or -1.
  pub record IsReceived (fd n : ℕ) (k : K) (r : ℤ) (buffer : List ℕ) (k' : K) : Type 0 where
    pub arrived : v.incoming fd k ≡ buffer ++ v.incoming fd k'
    pub bounded : length buffer ≤ n
    pub outcome :
        (r ≡ negsuc 0)
        ⊎ ((r ≡ pos (length buffer)) × ((length buffer ≡ n) ⊎ (v.incoming fd k' ≡ [])))

  abbrev Ends : (fd n : ℕ) → K → Option (ℤ × List ℕ × K) → Type 0
  Ends fd n k o =
      (r : ℤ) × (buffer : List ℕ) × (k' : K) × (o ≡ some (r, buffer, k'))
      × IsReceived fd n k r buffer k'

  readn_step :
      (fuel fd n nleft : ℕ) (buffer : List ℕ) (k : K)
      → 0 < nleft
      → readn_loop s (suc fuel) fd n nleft buffer k
        ≡ readn_round s n nleft buffer (readn_loop s fuel fd n) (s.read fd nleft k)
  unfolding readn_loop
  readn_step fuel fd n nleft buffer k h = let e : (nleft == 0) ≡ false = ground arith in rw e refl

  readn_end :
      (fuel fd n : ℕ) (buffer : List ℕ) (k : K)
      → readn_loop s (suc fuel) fd n 0 buffer k ≡ some (pos n, buffer, k)
  unfolding readn_loop
  readn_end fuel fd n buffer k = let e : n - 0 ≡ n = omega arith in rw e refl

  module _ (fd n : ℕ) (start : K) where
    -- Where the loop stands: what the buffer holds came off the descriptor.
    abbrev Reading : ℕ → List ℕ → K → Type 0
    Reading nleft buffer k =
        (length buffer + nleft ≡ n) × (v.incoming fd start ≡ buffer ++ v.incoming fd k)

    abbrev Goal : Option (ℤ × List ℕ × K) → Type 0
    Goal = Ends fd n start

    abbrev Again : ℕ → (ℕ → List ℕ → K → Option (ℤ × List ℕ × K)) → Type 0
    Again fuel again =
        (nleft : ℕ) (buffer : List ℕ) (k : K)
        → Reading nleft buffer k
        → nleft + v.patience k < fuel
        → Goal (again nleft buffer k)

    stops_failed :
        (nleft : ℕ) (buffer : List ℕ) (k k' : K)
        → Reading nleft buffer k
        → v.incoming fd k' ≡ v.incoming fd k
        → Goal (some (negsuc 0, buffer, k'))
    stops_failed nleft buffer k k' (size, came) still = (
      negsuc 0,
      buffer,
      k',
      refl,
      record { arrived = rw still came; bounded = omega arith; outcome = inl refl },
    )

    stops :
        (nleft : ℕ) (buffer : List ℕ) (k : K)
        → Reading nleft buffer k
        → (nleft ≡ 0) ⊎ (v.incoming fd k ≡ [])
        → Goal (some (pos (n - nleft), buffer, k))
    stops nleft buffer k (size, came) why =
        let e : n - nleft ≡ length buffer = omega arith in
        (
          pos (n - nleft),
          buffer,
          k,
          refl,
          record {
            arrived = came;
            bounded = omega arith;
            outcome = inr (ap pos e, elim why [ inl z ↦ inl (omega arith) | inr z ↦ inr z ]);
          },
        )

    round-Ends :
        (fuel nleft : ℕ) (buffer : List ℕ) (k : K)
        (again : ℕ → List ℕ → K → Option (ℤ × List ℕ × K))
        → Again fuel again
        → Reading nleft buffer k
        → 0 < nleft
        → nleft + v.patience k < suc fuel
        → (got : Reply (List ℕ) × K) → ReadLaw v fd nleft k got
        → Goal (readn_round s n nleft buffer again got)
    round-Ends fuel nleft buffer k again ends at h enough (failed e, k')
          (_, still, calm, interrupted) =
        elim (Bool-cases (e == eintr)) [
          | inl y ↦
              let calmer : v.patience k' < v.patience k = interrupted (ground arith) in
              rw y (ends nleft buffer k' (at.0, rw still at.1) (omega arith))
          | inr y ↦ rw y (stops_failed nleft buffer k k' at still)
        ]
    round-Ends fuel nleft buffer k again ends at h enough (done [], k') (_, came, over, calm) =
        stops nleft buffer k' (at.0, rw (sym came) at.1) (inr (over refl h))
    round-Ends fuel nleft buffer k again ends at h enough (done (b ∷ bytes), k')
          (fits, came, _, calm) =
        let size = length-append buffer (b ∷ bytes) in
        ends (nleft - length (b ∷ bytes)) (buffer ++ b ∷ bytes) k'
          (omega arith, at.1 ∙ ap (λ r. buffer ++ r) came ∙ sym (append_assoc buffer (b ∷ bytes) _))
          (omega arith)

    loop-Ends :
        (fuel nleft : ℕ) (buffer : List ℕ) (k : K)
        → Reading nleft buffer k
        → nleft + v.patience k < fuel
        → Goal (readn_loop s fuel fd n nleft buffer k)
    loop-Ends zero nleft buffer k at enough = absurd (omega arith)
    loop-Ends (suc fuel) zero buffer k at enough =
        let e : n - 0 ≡ n = omega arith in
        rw (readn_end fuel fd n buffer k)
          (subst (λ m. Goal (some (pos m, buffer, k))) e (stops 0 buffer k at (inl refl)))
    loop-Ends (suc fuel) (suc m) buffer k at enough =
        rw (readn_step fuel fd n (suc m) buffer k (omega arith)) (
          round-Ends fuel (suc m) buffer k (readn_loop s fuel fd n) (loop-Ends fuel) at
            (omega arith) enough (s.read fd (suc m) k) (law.reads fd (suc m) k))

  -- On a descriptor that keeps to the manual pages of read, Readn ends within as many calls as the
  -- bytes asked for and the interruptions by signals that are still to come; what the buffer holds
  -- is what came off the descriptor, in order and not more than asked for, and the result is -1, or
  -- the number of these bytes where it is the number asked for or the end is reached.
  pub readn-IsReceived :
      (fuel fd n : ℕ) (k : K)
      → n + v.patience k < fuel
      → (r : ℤ) × (buffer : List ℕ) × (k' : K) × (readn s fuel fd n k ≡ some (r, buffer, k'))
        × IsReceived fd n k r buffer k'
  unfolding readn
  readn-IsReceived fuel fd n k enough = loop-Ends fd n k fuel n [] k (omega arith, refl) enough
