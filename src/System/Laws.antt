-- ===== src/System/Laws.antt =====
-- What read and write do to the two ends of a connection, or to an open file.
use vmodule.Base.{ℕ, ◌≤◌, ◌<◌, ◌≡◌, List, [], ◌++◌, length, take}
use vmodule.System.{Reply, failed, done, eintr, Stream}

-- What has been written to a descriptor, what is still to be read from it, and how often calls can
-- still be interrupted by a signal.
pub record View (K : Type 0) : Type 0 where
  pub sent : ℕ → K → List ℕ
  pub incoming : ℕ → K → List ℕ
  pub patience : K → ℕ

module _ {K : Type 0} (v : View K) where
  -- Nothing moved; an interruption brings the last one nearer.
  abbrev pub Failed : (fd e : ℕ) → K → K → Type 0
  Failed fd e k k' =
      (v.sent fd k' ≡ v.sent fd k)
      × (v.incoming fd k' ≡ v.incoming fd k)
      × (v.patience k' ≤ v.patience k)
      × (e ≡ eintr → v.patience k' < v.patience k)

  -- read gives the next bytes, at most as many as asked for, and none only at the end.
  abbrev pub ReadLaw : (fd count : ℕ) → K → Reply (List ℕ) × K → Type 0
  ReadLaw fd count k (failed e, k') = Failed fd e k k'
  ReadLaw fd count k (done bytes, k') =
      (length bytes ≤ count)
      × (v.incoming fd k ≡ bytes ++ v.incoming fd k')
      × (bytes ≡ [] → 0 < count → v.incoming fd k' ≡ [])
      × (v.patience k' ≤ v.patience k)

  -- write takes bytes from the front.
  abbrev pub WriteLaw : (fd : ℕ) → List ℕ → K → Reply ℕ × K → Type 0
  WriteLaw fd bytes k (failed e, k') = Failed fd e k k'
  WriteLaw fd bytes k (done n, k') =
      (n ≤ length bytes)
      × (v.sent fd k' ≡ v.sent fd k ++ take n bytes)
      × (v.patience k' ≤ v.patience k)

  pub record IsStream (s : Stream K) : Type 0 where
    pub reads : (fd count : ℕ) (k : K) → ReadLaw fd count k (s.read fd count k)
    pub writes : (fd : ℕ) (bytes : List ℕ) (k : K) → WriteLaw fd bytes k (s.write fd bytes k)
