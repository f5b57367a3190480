-- ===== src/FileUtils/Stuck.antt =====
-- ReadToBuffer of sutils/FileUtils.cpp when it is asked for more bytes than the file holds.
use vmodule.Base.{
  ℕ, zero, suc, ◌+◌, ◌-◌, ◌<◌, ◌≡◌, refl, ap, subst, ◌∙◌, Option, none, some, List, [], ◌++◌,
  length, length-append, arith,
}
use vmodule.System.{Reply, failed, done, Stream}
use vmodule.System.Laws.{View, ReadLaw}
use vmodule.System.Files.{Text, Files, FileView, ReadableLaw, AreFiles}
use vmodule.FileUtils.{Buffered, read_more, read_rest, read_to_buffer}
use vmodule.FileUtils.Loading.{ReadFails, read_step}

module _ {K : Type 0} {s : Stream K} {f : Files K} {v : View K} {c : FileView K}
    (law : AreFiles v c s f) where
  -- What is still asked for is more than what is still to come, so no round is the last.
  round-none :
      (fd size : ℕ) (buffer : List ℕ) (count : ℕ) (k : K)
      (again : List ℕ → ℕ → K → Option (Buffered K))
      → ((buffer : List ℕ) (count : ℕ) (k : K)
          → count + length (v.incoming fd k) < size
          → again buffer count k ≡ none)
      → (ReadFails law → ⊥)
      → count + length (v.incoming fd k) < size
      → (got : Reply (List ℕ) × K) → s.read fd (size - count) k ≡ got
      → ReadLaw v fd (size - count) k got
      → read_more s f buffer count again got ≡ none
  round-none fd size buffer count k again stuck sound short (failed e, k') same _ =
      absurd (sound (fd, size - count, k, e, ap (λ r. r.0) same))
  round-none fd size buffer count k again stuck sound short (done bytes, k') same (_, came, _, _) =
      let n = length-append bytes (v.incoming fd k') in
      let m = ap length came in stuck (buffer ++ bytes) (count + length bytes) k' (omega arith)

  rest-none :
      (fuel fd size : ℕ) (buffer : List ℕ) (count : ℕ) (k : K)
      → (ReadFails law → ⊥)
      → count + length (v.incoming fd k) < size
      → read_rest s f fuel fd size buffer count k ≡ none
  unfolding read_rest
  rest-none zero fd size buffer count k sound short = refl
  rest-none (suc fuel) fd size buffer count k sound short =
      read_step law fuel fd size buffer count k (omega arith)
      ∙ round-none fd size buffer count k (read_rest s f fuel fd size)
          (λ b n k'. rest-none fuel fd size b n k' sound) sound short (s.read fd (size - count) k)
          refl (law.stream.reads fd (size - count) k)

  -- Where the file can be opened and no read fails, ReadToBuffer with a size above the length of
  -- the file never ends, whatever the fuel.
  pub read_to_buffer-never_ends :
      (fuel : ℕ) (path : Text) (size : ℕ) (k : K)
      → length (c.content path k) < size
      → (fd : ℕ) (k0 : K) → f.open_read path k ≡ (some fd, k0)
      → (ReadFails law → ⊥)
      → read_to_buffer s f fuel path size k ≡ none
  unfolding read_to_buffer
  read_to_buffer-never_ends fuel path zero k short fd k0 e sound = absurd (omega arith)
  read_to_buffer-never_ends fuel path (suc m) k short fd k0 e sound =
      let (reads, same, _) = subst (ReadableLaw v c path k) e (law.finds path k) in
      let n : length (v.incoming fd k0) ≡ length (c.content path k) =
        ap length (law.readable fd path k0 reads ∙ same) in
      rw (e, rest-none fuel fd (suc m) [] 0 k0 sound (omega arith)) refl
