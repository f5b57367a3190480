-- ===== src/FileUtils/Loading.antt =====
-- ReadToBuffer of sutils/FileUtils.cpp on a file that behaves as the manual pages say, and what
-- WriteToFile saved.
use vmodule.Base.{
  ℕ, zero, suc, ◌+◌, ◌-◌, ◌≤◌, ◌<◌, ◌≡◌, ◌≢◌, refl, sym, ap, subst, ◌∙◌, ◌⊎◌, inl, inr, true, false,
  Option, none, some, List, [], ◌∷◌, ◌++◌, append_assoc, length, take, ltb, length-append,
  take-append, take_all, lt_or_ge, arith,
}
use vmodule.System.{Reply, failed, done, Stream}
use vmodule.System.Laws.{View, ReadLaw}
use vmodule.System.Files.{Text, Files, FileView, ReadableLaw, AreFiles}
use vmodule.FileUtils.{
  Buffered, write_to_file, read_more, read_rest, close_read, read_sized, read_opened,
  read_to_buffer,
}
use vmodule.FileUtils.Saving.{WriteFails, write_to_file-IsWritten}

module _ {K : Type 0} {s : Stream K} {f : Files K} {v : View K} {c : FileView K}
    (law : AreFiles v c s f) where
  -- A read that fails, in some state.
  abbrev pub ReadFails : Type 0
  ReadFails = (fd : ℕ) × (count : ℕ) × (k : K) × (e : ℕ) × ((s.read fd count k).0 ≡ failed e)

  pub read_step :
      (fuel fd size : ℕ) (buffer : List ℕ) (count : ℕ) (k : K)
      → count < size
      → read_rest s f (suc fuel) fd size buffer count k
        ≡ read_more s f buffer count (read_rest s f fuel fd size) (s.read fd (size - count) k)
  unfolding read_rest
  read_step fuel fd size buffer count k h =
      let e : ltb count size ≡ true = ground arith in rw e refl

  read_end :
      (fuel fd size : ℕ) (buffer : List ℕ) (count : ℕ) (k : K)
      → size ≤ count
      → read_rest s f (suc fuel) fd size buffer count k ≡ some (count, buffer, k)
  unfolding read_rest
  read_end fuel fd size buffer count k h =
      let e : ltb count size ≡ false = ground arith in rw e refl

  module _ (fd size : ℕ) (bytes : List ℕ) (room : size ≤ length bytes) where
    -- Where the loop stands: the bytes are those in the buffer and those to come.
    abbrev Reading : List ℕ → ℕ → K → Type 0
    Reading buffer count k =
        (length buffer ≡ count) × (count ≤ size) × (bytes ≡ buffer ++ v.incoming fd k)

    -- The buffer holds the first `count` bytes, and these are all, or a read failed.
    abbrev pub Filled : ℕ → List ℕ → Type 0
    Filled count buffer =
        (buffer ≡ take count bytes) × (count ≤ size) × ((count ≡ size) ⊎ ReadFails)

    abbrev Ends : Option (Buffered K) → Type 0
    Ends o =
        (count : ℕ) × (buffer : List ℕ) × (k : K) × (o ≡ some (count, buffer, k))
        × Filled count buffer

    prefix :
        (buffer : List ℕ) (count : ℕ) (k : K) → Reading buffer count k → buffer ≡ take count bytes
    prefix buffer count k (long, _, parts) = rw (parts, sym long) (sym (take-append buffer _))

    round-Ends :
        (fuel : ℕ) (buffer : List ℕ) (count : ℕ) (k : K)
        (again : List ℕ → ℕ → K → Option (Buffered K))
        → ((buffer : List ℕ) (count : ℕ) (k : K)
            → Reading buffer count k
            → size - count < fuel
            → Ends (again buffer count k))
        → Reading buffer count k
        → size - count < suc fuel
        → count < size
        → (got : Reply (List ℕ) × K) → s.read fd (size - count) k ≡ got
        → ReadLaw v fd (size - count) k got
        → Ends (read_more s f buffer count again got)
    round-Ends fuel buffer count k again goes at enough more (failed e, k') same _ = (
      count,
      buffer,
      k',
      refl,
      (prefix buffer count k at, at.1, inr (fd, size - count, k, e, ap (λ r. r.0) same)),
    )
    round-Ends fuel buffer count k again goes (long, _, parts) enough more (done [], k') same
          (_, came, over, _) =
        let ended : v.incoming fd k ≡ [] = came ∙ over refl (omega arith) in
        let all : length bytes ≡ length (buffer ++ []) =
          ap length (parts ∙ ap (λ r. buffer ++ r) ended) in
        let size' = length-append buffer [] in absurd (omega arith)
    round-Ends fuel buffer count k again goes (long, _, parts) enough more
          (done (b ∷ more_bytes), k') same (fits, came, _, _) =
        let size' = length-append buffer (b ∷ more_bytes) in
        goes (buffer ++ b ∷ more_bytes) (count + length (b ∷ more_bytes)) k'
          (
            omega arith,
            omega arith,
            parts ∙ ap (λ r. buffer ++ r) came ∙ sym (append_assoc buffer (b ∷ more_bytes) _),
          )
          (omega arith)

    rest-Ends :
        (fuel : ℕ) (buffer : List ℕ) (count : ℕ) (k : K)
        → Reading buffer count k
        → size - count < fuel
        → Ends (read_rest s f fuel fd size buffer count k)
    rest-Ends zero buffer count k at enough = absurd (omega arith)
    rest-Ends (suc fuel) buffer count k at enough = elim (lt_or_ge count size) [
      | inl more ↦ rw (read_step fuel fd size buffer count k more) (
          round-Ends fuel buffer count k (read_rest s f fuel fd size) (rest-Ends fuel) at enough
            more (s.read fd (size - count) k) refl (law.stream.reads fd (size - count) k))
      | inr full ↦
          rw (read_end fuel fd size buffer count k full)
            (count, buffer, k, refl, (prefix buffer count k at, at.1, inl (omega arith)))
    ]

    sized-Ends :
        (fuel : ℕ) (path : Text) (k : K)
        → size < fuel
        → c.Reads fd path k
        → c.content path k ≡ bytes
        → Ends (read_sized s f fuel fd (size, k))
    sized-Ends fuel path k enough reads holds = close (read_rest s f fuel fd size [] 0 k) (
        rest-Ends fuel [] 0 k (refl, omega arith, sym holds ∙ sym (law.readable fd path k reads))
          (omega arith))
      where
        close : (o : Option (Buffered K)) → Ends o → Ends (close_read s f fd o)
        close o (count, buffer, k', e, filled) =
            (count, buffer, f.close_file fd k', rw e refl, filled)

  -- A size of 0 asks for the whole file.
  abbrev pub wanted : (size whole : ℕ) → ℕ
  wanted zero whole = whole
  wanted (suc m) whole = suc m

  pub read_to_buffer-Filled :
      (fuel : ℕ) (path : Text) (size : ℕ) (k : K)
      → length (c.content path k) < fuel
      → size ≤ length (c.content path k)
      → (fd : ℕ) (k0 : K) → f.open_read path k ≡ (some fd, k0)
      → (count : ℕ) × (buffer : List ℕ) × (k' : K) × (read_to_buffer s f fuel path size k
          ≡ some (count, buffer, k'))
        × ((buffer ≡ take count (c.content path k))
            × ((count ≡ wanted size (length (c.content path k))) ⊎ ReadFails))
  unfolding read_to_buffer
  read_to_buffer-Filled fuel path zero k enough room fd k0 e =
      let (reads, same, _) = subst (ReadableLaw v c path k) e (law.finds path k) in
      let (whole, reads', same', _) = law.seeks fd path k0 reads in
      let n : (f.seek_end fd k0).0 ≡ length (c.content path k) = whole ∙ ap length same in
      let (count, buffer, k', ends, (filled, _, all)) =
        sized-Ends fd ((f.seek_end fd k0).0) (c.content path k) (omega arith) fuel path
          (f.seek_start fd ((f.seek_end fd k0).1)) (omega arith) reads' (same' ∙ same) in
      (
        count,
        buffer,
        k',
        ap (read_opened s f fuel zero) e ∙ ends,
        (filled, elim all [ inl y ↦ inl (y ∙ n) | inr y ↦ inr y ]),
      )
  read_to_buffer-Filled fuel path (suc m) k enough room fd k0 e =
      let (reads, same, _) = subst (ReadableLaw v c path k) e (law.finds path k) in
      let (count, buffer, k', ends, (filled, _, all)) =
        sized-Ends fd (suc m) (c.content path k) room fuel path k0 (omega arith) reads same in
      (count, buffer, k', ap (read_opened s f fuel (suc m)) e ∙ ends, (filled, all))

  -- Where the file can be opened, no call fails, and the calls keep to the manual pages,
  -- WriteToFile ends and returns the number of the bytes given, and ReadToBuffer of the same file
  -- afterwards with size 0 ends and gives exactly these bytes.
  pub read_to_buffer-write_to_file :
      (fuel : ℕ) (path : Text) (bytes : List ℕ) (k : K)
      → length bytes < fuel
      → ((path : Text) (k : K) → (f.open_new path k).0 ≢ none)
      → ((path : Text) (k : K) → (f.open_read path k).0 ≢ none)
      → (WriteFails law → ⊥)
      → (ReadFails → ⊥)
      → (k' k'' : K) × (write_to_file s f fuel path bytes k ≡ some (length bytes, k'))
        × (read_to_buffer s f fuel path 0 k' ≡ some (length bytes, bytes, k''))
  read_to_buffer-write_to_file fuel path bytes k enough creates opens no_write_fails no_read_fails =
      let (fd, k0, e) = succeeds (f.open_new path k) (creates path k) in
      let (written, k1, saved, (held, _, all)) =
        write_to_file-IsWritten law fuel path bytes k enough fd k0 e in
      let n : written ≡ length bytes = elim all [ inl y ↦ y | inr y ↦ absurd (no_write_fails y) ] in
      let holds : c.content path k1 ≡ bytes = held ∙ take_all written bytes (omega arith) in
      let long : length (c.content path k1) ≡ length bytes = ap length holds in
      let (fd', k2, e') = succeeds (f.open_read path k1) (opens path k1) in
      let (count, buffer, k3, loaded, (filled, whole)) =
        read_to_buffer-Filled fuel path 0 k1 (omega arith) (omega arith) fd' k2 e' in
      let n' : count ≡ length bytes = elim whole [
        | inl y ↦ y ∙ long
        | inr y ↦ absurd (no_read_fails y)
      ] in
      let b : buffer ≡ bytes =
        filled ∙ ap (take count) holds ∙ take_all count bytes (omega arith) in
      (k1, k3, rw (saved, n) refl, rw (loaded, n', b) refl)
    where
      succeeds : (got : Option ℕ × K) → got.0 ≢ none → (fd : ℕ) × (k' : K) × (got ≡ (some fd, k'))
      succeeds (none, k') h = absurd (h refl)
      succeeds (some fd, k') h = (fd, k', refl)
