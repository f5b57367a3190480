-- ===== src/Socket/Send.antt =====
-- Writen of socket/Socket.cpp, on a descriptor that behaves as the manual pages say.
use vmodule.Base.{
  ℕ, zero, suc, ◌+◌, ◌<◌, ◌≡◌, refl, sym, ap, ◌∙◌, ◌⊎◌, inl, inr, false, Bool-cases, Option, some,
  List, [], ◌∷◌, ◌++◌, append-nil, append_assoc, ◌==◌, length, take, drop, length-drop,
  take-append-drop, ℤ, pos, negsuc, arith,
}
use vmodule.System.{Reply, failed, done, eintr, Stream}
use vmodule.System.Laws.{View, WriteLaw, IsStream}
use vmodule.Socket.{writen, writen_loop, writen_round}

module _ {K : Type 0} {s : Stream K} {v : View K} (law : IsStream v s) where
  -- What Writen leaves: all the bytes are sent, or -1 and the first few.
  pub record IsSent (fd : ℕ) (bytes : List ℕ) (k : K) (r : ℤ) (k' : K) : Type 0 where
    pub left_out : List ℕ
    pub went : List ℕ
    pub parts : went ++ left_out ≡ bytes
    pub sent : v.sent fd k' ≡ v.sent fd k ++ went
    pub outcome :
        ((r ≡ pos (length bytes)) × (left_out ≡ [])) ⊎ ((r ≡ negsuc 0) × (0 < length left_out))

  writen_step :
      (fuel fd n : ℕ) (rest : List ℕ) (k : K)
      → 0 < length rest
      → writen_loop s (suc fuel) fd n rest k
        ≡ writen_round s rest (writen_loop s fuel fd n) (s.write fd rest k)
  unfolding writen_loop
  writen_step fuel fd n rest k h = let e : (length rest == 0) ≡ false = ground arith in rw e refl

  writen_end : (fuel fd n : ℕ) (k : K) → writen_loop s (suc fuel) fd n [] k ≡ some (pos n, k)
  unfolding writen_loop
  writen_end fuel fd n k = refl

  module _ (fd : ℕ) (bytes : List ℕ) (start : K) where
    -- What has gone out, and what is left, are the two parts of the bytes.
    abbrev Writing : List ℕ → K → Type 0
    Writing rest k =
        (went : List ℕ) × (went ++ rest ≡ bytes) × (v.sent fd k ≡ v.sent fd start ++ went)

    abbrev Goal : Option (ℤ × K) → Type 0
    Goal o = (r : ℤ) × (k' : K) × (o ≡ some (r, k')) × IsSent fd bytes start r k'

    abbrev Again : ℕ → (List ℕ → K → Option (ℤ × K)) → Type 0
    Again fuel again =
        (rest : List ℕ) (k : K)
        → Writing rest k
        → length rest + v.patience k < fuel
        → Goal (again rest k)

    gives_up :
        (rest : List ℕ) (k : K) → Writing rest k → 0 < length rest → Goal (some (negsuc 0, k))
    gives_up rest k (went, parts, sent) h = (
      negsuc 0,
      k,
      refl,
      record { left_out = rest; went = went; parts = parts; sent = sent; outcome = inr (refl, h) },
    )

    moves :
        (n : ℕ) (rest : List ℕ) (k k' : K)
        → Writing rest k
        → v.sent fd k' ≡ v.sent fd k ++ take n rest
        → Writing (drop n rest) k'
    moves n rest k k' (went, parts, sent) took = (
      went ++ take n rest,
      append_assoc went (take n rest) (drop n rest)
          ∙ ap (λ r. went ++ r) (take-append-drop n rest)
          ∙ parts,
      took ∙ ap (λ r. r ++ take n rest) sent ∙ append_assoc (v.sent fd start) went (take n rest),
    )

    stays :
        (rest : List ℕ) (k k' : K) → Writing rest k → v.sent fd k' ≡ v.sent fd k → Writing rest k'
    stays rest k k' (went, parts, sent) still = (went, parts, still ∙ sent)

    round-Ends :
        (fuel : ℕ) (rest : List ℕ) (k : K) (again : List ℕ → K → Option (ℤ × K))
        → Again fuel again
        → Writing rest k
        → 0 < length rest
        → length rest + v.patience k < suc fuel
        → (got : Reply ℕ × K) → WriteLaw v fd rest k got
        → Goal (writen_round s rest again got)
    round-Ends fuel rest k again ends at h enough (failed e, k') (still, _, calm, interrupted) =
        let at' = stays rest k k' at still in
        elim (Bool-cases (e == eintr)) [
          | inl y ↦
              let calmer : v.patience k' < v.patience k = interrupted (ground arith) in
              rw y (ends rest k' at' (omega arith))
          | inr y ↦ rw y (gives_up rest k' at' h)
        ]
    round-Ends fuel rest k again ends at h enough (done zero, k') (_, took, calm) =
        gives_up rest k' (stays rest k k' at (took ∙ append-nil _)) h
    round-Ends fuel rest k again ends at h enough (done (suc m), k') (fits, took, calm) =
        let size = length-drop (suc m) rest in
        ends (drop (suc m) rest) k' (moves (suc m) rest k k' at took) (omega arith)

    loop-Ends :
        (fuel : ℕ) (rest : List ℕ) (k : K)
        → Writing rest k
        → length rest + v.patience k < fuel
        → Goal (writen_loop s fuel fd (length bytes) rest k)
    loop-Ends zero rest k at enough = absurd (omega arith)
    loop-Ends (suc fuel) [] k (went, parts, sent) enough =
        rw (writen_end fuel fd (length bytes) k) (
          pos (length bytes),
          k,
          refl,
          record {
            left_out = [];
            went = went;
            parts = parts;
            sent = sent;
            outcome = inl (refl, refl);
          },
        )
    loop-Ends (suc fuel) (b ∷ rest) k at enough =
        rw (writen_step fuel fd (length bytes) (b ∷ rest) k (omega arith)) (
          round-Ends fuel (b ∷ rest) k (writen_loop s fuel fd (length bytes)) (loop-Ends fuel) at
            (omega arith) enough (s.write fd (b ∷ rest) k) (law.writes fd (b ∷ rest) k))

  -- On a descriptor that keeps to the manual pages of write, Writen ends within as many calls as
  -- the bytes given and the interruptions by signals that are still to come; the bytes it has sent
  -- are the first of those given, in order, and all of them where it returns their number, and
  -- fewer where it returns -1.
  pub writen-IsSent :
      (fuel fd : ℕ) (bytes : List ℕ) (k : K)
      → length bytes + v.patience k < fuel
      → (r : ℤ) × (k' : K) × (writen s fuel fd bytes k ≡ some (r, k')) × IsSent fd bytes k r k'
  unfolding writen
  writen-IsSent fuel fd bytes k enough =
      loop-Ends fd bytes k fuel bytes k ([], refl, sym (append-nil _)) enough
