-- ===== src/Logger/Delivery.antt =====
-- The way of a message from LoggerThread::sendDebugMessage of sutils/LoggerThread.cpp through the
-- blocking queue to the log file: senders and the logger thread, in any order of their turns.
-- The queue is an interface, which CQueue fills here; mBlockingQueue is a VmBlockingQueue over the
-- mqueue of VmQueue.
use vmodule.Base.{
  ℕ, ◌≡◌, refl, sym, ap, subst, ◌∙◌, Bool, true, false, Bool-cases, inl, inr, Option, none, some,
  List, [], ◌∷◌, ◌++◌, append-nil, append_assoc, map, ◌==◌, if◌then◌else◌, has, All, some_inj,
  arith,
}
use vmodule.StringUtils.Text.{Text}
use vmodule.Queue.Chain.{has-cons, ==_false}
use vmodule.BlockingQueue.{Buffer}
use vmodule.BlockingQueue.Order.{BufferView, IsBuffer, PopLaw}
use vmodule.Logger.Writer.{Stdio, LoggerThread, handle_item}
use vmodule.Logger.Writer.Lines.{line, Writes, handle-line}

-- The bytes that strlen counts.
abbrev pub c_string : Text → Text
c_string [] = []
c_string (c ∷ text) = let rest = c_string text in if c == 0 then [] else c ∷ rest

-- The queue of items, the string at item->Object of each, and the log file.
pub record Delivery (S K : Type 0) : Type 0 where
  pub held : S
  pub objects : ℕ → Text
  pub disk : K

-- sendDebugMessage with the address that malloc gives for the item, or a return of DeQueue in the
-- logger thread, with what the loop does then.
pub data Turn : Type 0 where
  sends : (item : ℕ) → Text → Turn
  receives : Turn

abbrev pub write_object : (ℕ → Text) → ℕ → Text → ℕ → Text
write_object objects item text i = if i == item then text else objects i

module _ {S K : Type 0} (buffer : Buffer S) (io : Stdio K) (t : LoggerThread) where
  -- memcpy takes the string with its length by strlen, and its end.
  unfoldable pub send_debug_message : ℕ → Text → Delivery S K → Delivery S K
  send_debug_message item text d = record d {
    held = buffer.push item d.held;
    objects = write_object d.objects item (c_string text);
  }

  abbrev pub got_item : Option ℕ × S → Delivery S K → Delivery S K
  got_item (none, s) d = record d { held = s }
  got_item (some item, s) d = record d {
    held = s;
    disk = handle_item io t (some (c_string (d.objects item))) d.disk;
  }

  unfoldable pub receive_item : Delivery S K → Delivery S K
  receive_item d = got_item (buffer.pop d.held) d

  -- Malloc gives no address of an item that is still in the queue.
  unfoldable pub take_turn : Turn → Delivery S K → Delivery S K
  unfolding send_debug_message receive_item
  take_turn (sends item text) d =
      if buffer.accepts item d.held then send_debug_message item text d else d
  take_turn receives d = receive_item d

  unfoldable pub take_turns : List Turn → Delivery S K → Delivery S K
  unfolding take_turn
  take_turns [] d = d
  take_turns (turn ∷ turns) d = take_turns turns (take_turn turn d)

  -- The messages sent, in order.
  unfoldable pub all_sent : List Turn → Delivery S K → List Text
  unfolding take_turn
  all_sent [] d = []
  all_sent (sends item text ∷ turns) d =
      let later = all_sent turns (take_turn (sends item text) d) in
      if buffer.accepts item d.held then text ∷ later else later
  all_sent (receives ∷ turns) d = all_sent turns (take_turn receives d)

-- The lines of messages.
abbrev pub written : List Text → Text
written [] = []
written (text ∷ texts) = line (some (c_string text)) ++ written texts

abbrev pub ProperTurn : {S : Type 0} → BufferView S → Turn → Type 0
ProperTurn view (sends item text) = view.Proper item
ProperTurn view receives = Unit

written-append : (xs ys : List Text) → written (xs ++ ys) ≡ written xs ++ written ys
written-append [] ys = refl
written-append (x ∷ xs) ys =
    ap (λ r. line (some (c_string x)) ++ r) (written-append xs ys)
    ∙ sym (append_assoc (line (some (c_string x))) (written xs) (written ys))

c_string_twice : (text : Text) → c_string (c_string text) ≡ c_string text
c_string_twice [] = refl
c_string_twice (c ∷ text) = elim (Bool-cases (c == 0)) [
  | inl e ↦ rw e refl
  | inr e ↦ rw (e, e) (ap (λ r. c ∷ r) (c_string_twice text))
]

map-write_object :
    (objects : ℕ → Text) (item : ℕ) (text : Text) (xs : List ℕ)
    → has item xs ≡ false
    → map (write_object objects item text) xs ≡ map objects xs
map-write_object objects item text [] h = refl
map-write_object objects item text (x ∷ xs) h =
    let (other, rest) = has-cons item x xs h in
    rw (==_false item x other)
      (ap (λ r. objects x ∷ r) (map-write_object objects item text xs rest))

map-snoc :
    {A B : Type 0} (f : A → B) (xs : List A) (x : A) → map f (xs ++ x ∷ []) ≡ map f xs ++ f x ∷ []
map-snoc f [] x = refl
map-snoc f (y ∷ xs) x = ap (λ r. f y ∷ r) (map-snoc f xs x)

module _ {S K : Type 0} {buffer : Buffer S} {view : BufferView S} (law : IsBuffer buffer view)
    (fresh : (item : ℕ) (s : S) (xs : List ℕ)
      → view.Holds s xs
      → buffer.accepts item s ≡ true
      → has item xs ≡ false)
    {io : Stdio K} {file : K → Text} (writes : Writes io file) (t : LoggerThread)
    (has_file : t.has_file ≡ true) where
  -- What is in the file, and the lines of what is still in the queue, are `all`.
  abbrev pub Delivers : Text → Delivery S K → Type 0
  Delivers all d =
      (xs : List ℕ) × view.Holds d.held xs × (file d.disk ++ written (map d.objects xs) ≡ all)

  sends-Delivers :
      (item : ℕ) (text all : Text) (d : Delivery S K)
      → view.Proper item
      → buffer.accepts item d.held ≡ true
      → Delivers all d
      → Delivers (all ++ written (text ∷ [])) (send_debug_message buffer io t item text d)
  unfolding send_debug_message
  sends-Delivers item text all d proper ok (xs, holds, e) =
      let off = fresh item d.held xs holds ok in
      let objects' = write_object d.objects item (c_string text) in
      let self : (item == item) ≡ true = ground arith in
      (
        xs ++ item ∷ [],
        law.pushes item d.held xs holds proper ok,
        ap (λ r. file d.disk ++ written r)
              (map-snoc objects' xs item
                ∙ ap (λ r. r ++ objects' item ∷ [])
                    (map-write_object d.objects item (c_string text) xs off))
            ∙ ap (λ r. file d.disk ++ r) (written-append (map d.objects xs) (objects' item ∷ []))
            ∙ sym (
                append_assoc (file d.disk) (written (map d.objects xs))
                  (written (objects' item ∷ [])))
            ∙ ap (λ r. r ++ written (objects' item ∷ [])) e
            ∙ ap (λ r. all ++ (line (some r) ++ [])) (rw self (c_string_twice text)),
      )

  got-Delivers :
      (all : Text) (xs : List ℕ) (d : Delivery S K)
      → view.Holds d.held xs
      → file d.disk ++ written (map d.objects xs) ≡ all
      → (got : Option ℕ × S) → PopLaw buffer view xs d.held got
      → Delivers all (got_item buffer io t got d)
  got-Delivers all [] d holds e (none, s) h =
      ([], subst (λ s'. view.Holds s' []) (sym (ap (λ p. p.1) h)) holds, e)
  got-Delivers all [] d holds e (some item, s) h = absurd (ground arith)
  got-Delivers all (x ∷ xs) d holds e (none, s) (h, now) = absurd (ground arith)
  got-Delivers all (x ∷ xs) d holds e (some item, s) (h, now) =
      let same : item ≡ x = some_inj h in
      (
        xs,
        now,
        ap (λ r. r ++ written (map d.objects xs))
              (handle-line writes t (some (c_string (d.objects item))) d.disk has_file)
            ∙ append_assoc (file d.disk) (line (some (c_string (d.objects item))))
                (written (map d.objects xs))
            ∙ ap
                (λ i.
                  file d.disk
                  ++ (line (some (c_string (d.objects i))) ++ written (map d.objects xs)))
                same
            ∙ e,
      )

  pub take_turns-Delivers :
      (turns : List Turn) (all : Text) (d : Delivery S K)
      → All (ProperTurn view) turns
      → Delivers all d
      → Delivers (all ++ written (all_sent buffer io t turns d)) (take_turns buffer io t turns d)
  unfolding take_turns all_sent take_turn receive_item
  take_turns-Delivers [] all d proper h = rw (append-nil all) h
  take_turns-Delivers (sends item text ∷ turns) all d (proper, more) h =
      go (buffer.accepts item d.held) refl (λ all' d' h'. take_turns-Delivers turns all' d' more h')
    where
      sent : Delivery S K
      sent = send_debug_message buffer io t item text d

      first_line :
          (rest : Text)
          → (all ++ written (text ∷ [])) ++ rest ≡ all ++ (line (some (c_string text)) ++ rest)
      first_line rest =
          append_assoc all (written (text ∷ [])) rest
          ∙ ap (λ l. all ++ (l ++ rest)) (append-nil (line (some (c_string text))))

      go :
          (b : Bool)
          → buffer.accepts item d.held ≡ b
          → ((all' : Text) (d' : Delivery S K)
              → Delivers all' d'
              → Delivers
                  (all' ++ written (all_sent buffer io t turns d'))
                  (take_turns buffer io t turns d'))
          → Delivers
              (all
                ++ written (
                    if b
                    then text ∷ all_sent buffer io t turns (if b then sent else d)
                    else all_sent buffer io t turns (if b then sent else d)))
              (take_turns buffer io t turns (if b then sent else d))
      go true y again =
          subst (λ r. Delivers r (take_turns buffer io t turns sent))
            (first_line (written (all_sent buffer io t turns sent)))
            (again (all ++ written (text ∷ [])) sent (sends-Delivers item text all d proper y h))
      go false y again = again all d h
  take_turns-Delivers (receives ∷ turns) all d (proper, more) (xs, holds, e) =
      take_turns-Delivers turns all (receive_item buffer io t d) more
        (got-Delivers all xs d holds e (buffer.pop d.held) (law.pops d.held xs holds))

  -- On a queue that keeps to its interface and takes no item that it holds, and a log file that is
  -- open and on which no fwrite fails, whatever turns sendDebugMessage, for items that malloc
  -- gives, and the logger thread take: the file holds what it held before and then the lines of the
  -- messages sent, each up to its first zero byte, in order and without the last ones, which are
  -- those of the items in the queue.
  pub all_sent-Delivers :
      (turns : List Turn) (d : Delivery S K)
      → All (ProperTurn view) turns
      → view.Holds d.held []
      → Delivers
          (file d.disk ++ written (all_sent buffer io t turns d))
          (take_turns buffer io t turns d)
  all_sent-Delivers turns d proper empty =
      take_turns-Delivers turns (file d.disk) d proper ([], empty, append-nil (file d.disk))
