-- ===== src/FileUtils/Saving.antt =====
-- WriteToFile of sutils/FileUtils.cpp on a file that behaves as the manual pages say.
use vmodule.Base.{
  ℕ, zero, suc, ◌+◌, ◌≤◌, ◌<◌, ◌≡◌, refl, sym, ap, subst, ◌∙◌, ◌⊎◌, inl, inr, false, Option, some,
  List, [], ◌∷◌, ◌++◌, append_assoc, ◌==◌, length, take, drop, length-append, length-take,
  length-drop, take-append, take-append-drop, arith,
}
use vmodule.System.{Reply, failed, done, Stream}
use vmodule.System.Laws.{View, WriteLaw}
use vmodule.System.Files.{Text, Files, FileView, NewLaw, Moves, AreFiles}
use vmodule.FileUtils.{written_some, write_rest, close_written, write_to_file}

module _ {K : Type 0} {s : Stream K} {f : Files K} {v : View K} {c : FileView K}
    (law : AreFiles v c s f) where
  -- A write that fails, in some state.
  abbrev pub WriteFails : Type 0
  WriteFails = (fd : ℕ) × (bytes : List ℕ) × (k : K) × (e : ℕ) × ((s.write fd bytes k).0 ≡ failed e)

  module _ (fd : ℕ) (path : Text) (bytes : List ℕ) where
    -- Where the loop of WriteToFile stands.
    abbrev Writing : List ℕ → ℕ → K → Type 0
    Writing rest written k =
        (went : List ℕ) × (went ++ rest ≡ bytes)
        × (length went ≡ written)
        × (c.content path k ≡ went)
        × c.Writes fd path k

    abbrev Written : Option (ℕ × K) → Type 0
    Written o =
        (rest : List ℕ) × (written : ℕ) × (k : K) × (o ≡ some (written, k))
        × Writing rest written k
        × ((rest ≡ []) ⊎ WriteFails)

    write_step :
        (fuel : ℕ) (b : ℕ) (rest : List ℕ) (written : ℕ) (k : K)
        → write_rest s f (suc fuel) fd (b ∷ rest) written k
          ≡ written_some s f (b ∷ rest) written (write_rest s f fuel fd) (s.write fd (b ∷ rest) k)
    unfolding write_rest
    write_step fuel b rest written k =
        let e : (suc (length rest) == 0) ≡ false = ground arith in rw e refl

    write_end :
        (fuel written : ℕ) (k : K) → write_rest s f (suc fuel) fd [] written k ≡ some (written, k)
    unfolding write_rest
    write_end fuel written k = refl

    moves :
        (rest : List ℕ) (written n : ℕ) (k : K)
        → Writing rest written k
        → n ≤ length rest
        → (k' : K) → v.sent fd k' ≡ v.sent fd k ++ take n rest
        → c.Writes fd path k'
        → Writing (drop n rest) (written + n) k'
    moves rest written n k (went, parts, size, holds, writes) fits k' took writes' =
        let now : c.content path k' ≡ went ++ take n rest =
          sym (law.written fd path k' writes')
          ∙ took
          ∙ ap (λ r. r ++ take n rest) (law.written fd path k writes ∙ holds) in
        let size1 = length-append went (take n rest) in
        let size2 = length-take n rest in
        (
          went ++ take n rest,
          append_assoc went (take n rest) (drop n rest)
              ∙ ap (λ r. went ++ r) (take-append-drop n rest)
              ∙ parts,
          omega arith,
          now,
          writes',
        )

    round-Written :
        (fuel : ℕ) (rest : List ℕ) (written : ℕ) (k : K) (again : List ℕ → ℕ → K → Option (ℕ × K))
        → ((rest : List ℕ) (written : ℕ) (k : K)
            → Writing rest written k
            → length rest < fuel
            → Written (again rest written k))
        → Writing rest written k
        → length rest < suc fuel
        → 0 < length rest
        → (got : Reply ℕ × K) → s.write fd rest k ≡ got
        → WriteLaw v fd rest k got
        → Moves v c got
        → c.Writes fd path (got.1)
        → Written (written_some s f rest written again got)
    round-Written fuel rest written k again goes (went, parts, size, holds, writes) enough some_left
          (failed e, k') same (still, _, _, _) _ writes' =
        let now =
          sym (law.written fd path k' writes') ∙ still ∙ law.written fd path k writes ∙ holds in
        (
          rest,
          written,
          k',
          refl,
          (went, parts, size, now, writes'),
          inr (fd, rest, k, e, ap (λ r. r.0) same),
        )
    round-Written fuel rest written k again goes at enough some_left (done nw, k') same
          (fits, took, _) progress writes' =
        let size = length-drop nw rest in
        let less : 0 < nw = progress in
        goes (drop nw rest) (written + nw) k' (moves rest written nw k at fits k' took writes')
          (omega arith)

    rest-Written :
        (fuel : ℕ) (rest : List ℕ) (written : ℕ) (k : K)
        → Writing rest written k
        → length rest < fuel
        → Written (write_rest s f fuel fd rest written k)
    rest-Written zero rest written k at enough = absurd (omega arith)
    rest-Written (suc fuel) [] written k at enough =
        rw (write_end fuel written k) ([], written, k, refl, at, inl refl)
    rest-Written (suc fuel) (b ∷ rest) written k at enough = rw (write_step fuel b rest written k) (
        round-Written fuel (b ∷ rest) written k (write_rest s f fuel fd) (rest-Written fuel) at
          enough (omega arith) (s.write fd (b ∷ rest) k) refl (law.stream.writes fd (b ∷ rest) k)
          (law.moving fd path (b ∷ rest) k (at.4) (omega arith))
          (law.writing fd path (b ∷ rest) k (at.4)))

  -- The file holds the first `written` bytes; all of them, or a write failed.
  abbrev pub IsWritten : Text → List ℕ → ℕ → K → Type 0
  IsWritten path bytes written k =
      (c.content path k ≡ take written bytes)
      × (written ≤ length bytes)
      × ((written ≡ length bytes) ⊎ WriteFails)

  close-IsWritten :
      (path : Text) (fd : ℕ) (bytes : List ℕ) (o : Option (ℕ × K))
      → Written fd path bytes o
      → (written : ℕ) × (k' : K) × (close_written s f fd o ≡ some (written, k'))
        × IsWritten path bytes written k'
  close-IsWritten path fd bytes o (rest, written, k, e, (went, parts, size, holds, writes), why) =
      let (writes', synced) = law.syncs fd path k writes in
      let total = length-append went rest ∙ refl in
      let all : length (went ++ rest) ≡ length bytes = ap length parts in
      let part : take written bytes ≡ went = rw (sym parts, sym size) (take-append went rest) in
      (
        written,
        f.close_file fd (f.fdatasync fd k),
        rw e refl,
        (
          law.finishes fd path (f.fdatasync fd k) writes' ∙ synced ∙ holds ∙ sym part,
          omega arith,
          elim why [ inl none_left ↦ inl (whole none_left all) | inr fails ↦ inr fails ],
        ),
      )
    where
      whole : rest ≡ [] → length (went ++ rest) ≡ length bytes → written ≡ length bytes
      whole e all = let n = length-append went rest in let z = ap length e in omega arith

  pub write_to_file-IsWritten :
      (fuel : ℕ) (path : Text) (bytes : List ℕ) (k : K)
      → length bytes < fuel
      → (fd : ℕ) (k0 : K) → f.open_new path k ≡ (some fd, k0)
      → (written : ℕ) × (k' : K) × (write_to_file s f fuel path bytes k ≡ some (written, k'))
        × IsWritten path bytes written k'
  unfolding write_to_file
  write_to_file-IsWritten fuel path bytes k enough fd k0 e =
      let (writes, empty, _) = subst (NewLaw v c path k) e (law.creates path k) in
      rw e (
        close-IsWritten path fd bytes (write_rest s f fuel fd bytes 0 k0)
          (rest-Written fd path bytes fuel bytes 0 k0 ([], refl, refl, empty, writes) enough))
