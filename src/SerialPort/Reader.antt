-- ===== src/SerialPort/Reader.antt =====
-- The reading loop of CSerialPortReadTask::threadLoop in hardware/serial/SerialPort.cpp.
use vmodule.Base.{
  ℕ, zero, suc, ◌≤◌, ◌<◌, ◌≡◌, refl, sym, ap, ◌∙◌, Bool, Option, some, List, [], ◌∷◌, ◌++◌,
  append_assoc, true, ltb, lt→ltb, length, length-append, arith,
}
use vmodule.System.{Reply, failed, done, Stream}
use vmodule.System.Laws.{View, ReadLaw, IsStream}
use vmodule.SerialPort.{SerialPort, Received, received, one_byte, read_byte, keep_byte, read_all}

module _ {K : Type 0} {s : Stream K} {v : View K} (law : IsStream v s) (fd : ℕ) (task : Bool) where
  abbrev open_port_at : SerialPort
  open_port_at = record { m_file = some fd; read_task = task }

  module _ (start : K) (room : length (v.incoming fd start) ≤ 1024) where
    abbrev Reading : List ℕ → K → Type 0
    Reading buffer k = v.incoming fd start ≡ buffer ++ v.incoming fd k

    -- The bytes that came, without an overflow, and one more for the length.
    abbrev pub Ends : Option (Received K) → Type 0
    Ends o =
        (buffer : List ℕ) × (k : K) × (o ≡ some (received buffer (suc (length buffer)) k))
        × Reading buffer k

    step-Ends :
        (fuel : ℕ) (buffer : List ℕ) (k : K) (again : List ℕ → K → Option (Received K))
        → ((buffer : List ℕ) (k : K)
            → Reading buffer k
            → length (v.incoming fd k) < fuel
            → Ends (again buffer k))
        → Reading buffer k
        → length (v.incoming fd k) < suc fuel
        → (got : Reply (List ℕ) × K) → ReadLaw v fd 1 k got
        → Ends (keep_byte s buffer again (one_byte s got))
    step-Ends fuel buffer k again goes at enough (failed e, k') (_, still, _, _) =
        (buffer, k', refl, at ∙ ap (λ r. buffer ++ r) (sym still))
    step-Ends fuel buffer k again goes at enough (done [], k') (_, came, _, _) =
        (buffer, k', refl, at ∙ ap (λ r. buffer ++ r) came)
    step-Ends fuel buffer k again goes at enough (done (b ∷ []), k') (_, came, _, _) =
        let all = ap length at ∙ length-append buffer (v.incoming fd k) in
        let part = ap length came in
        let fits : ltb (length buffer) 1024 ≡ true = lt→ltb (length buffer) 1024 (omega arith) in
        let at' = at ∙ ap (λ r. buffer ++ r) came ∙ sym (append_assoc buffer (b ∷ []) _) in
        rw fits (goes (buffer ++ b ∷ []) k' at' (omega arith))
    step-Ends fuel buffer k again goes at enough (done (b ∷ c ∷ more), k') (fits, _, _, _) =
        absurd (omega arith)

    loop-Ends :
        (fuel : ℕ) (buffer : List ℕ) (k : K)
        → Reading buffer k
        → length (v.incoming fd k) < fuel
        → Ends (read_all s fuel open_port_at buffer k)
    unfolding read_all read_byte
    loop-Ends zero buffer k at enough = absurd (omega arith)
    loop-Ends (suc fuel) buffer k at enough =
        step-Ends fuel buffer k (read_all s fuel open_port_at) (loop-Ends fuel) at enough
          (s.read fd 1 k) (law.reads fd 1 k)

  -- On a port that keeps to the manual pages of read and has at most 1024 bytes to come, the
  -- reading loop ends without a write past its buffer, the buffer is what came, in order, and len
  -- is one more than its length.
  pub read_all-fits :
      (fuel : ℕ) (k : K)
      → length (v.incoming fd k) ≤ 1024
      → length (v.incoming fd k) < fuel
      → (buffer : List ℕ) × (k' : K) × (read_all s fuel open_port_at [] k
          ≡ some (received buffer (suc (length buffer)) k'))
        × (v.incoming fd k ≡ buffer ++ v.incoming fd k')
  read_all-fits fuel k room enough = loop-Ends k room fuel [] k refl enough
