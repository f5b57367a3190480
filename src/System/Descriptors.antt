-- ===== src/System/Descriptors.antt =====
-- The calls that open, set up and close sockets, over the state of the system, and what they do to
-- the table of open descriptors and to the file mode mask.
use vmodule.Base.{
  ℕ, ◌%◌, ◌≡◌, ◌≢◌, [], refl, ◌∙◌, inl, inr, Bool, true, false, not, ◌&&◌, ◌||◌, Option, none, some,
  List, ◌==◌, ap, sym, Bool-cases, arith,
}

abbrev pub Text : Type 0
Text = List ℕ

-- struct addrinfo: what socket and NewSocket read of it.
pub record AddrInfo : Type 0 where
  pub ai_family : ℕ
  pub ai_socktype : ℕ
  pub ai_protocol : ℕ

-- A result is `none` for -1.
pub record Sockets (K : Type 0) : Type 0 where
  pub errno : K → ℕ
  pub socket_call : (family kind protocol : ℕ) → K → Option ℕ × K
  pub get_flags : (fd : ℕ) → K → Option ℕ × K
  pub set_flags : (fd flags : ℕ) → K → Bool × K
  pub set_option : (fd level option value : ℕ) → K → Bool × K
  pub close_call : (fd : ℕ) → K → K
  pub bind_call : (fd : ℕ) → Text → K → Bool × K
  pub is_socket_file : Text → K → Bool
  pub unlink : Text → K → K
  pub umask : ℕ → K → ℕ × K
  pub getaddrinfo : (name port : Text) (flags family socktype : ℕ) → K → Option (List AddrInfo) × K
  pub freeaddrinfo : List AddrInfo → K → K

-- Which descriptors are open, and the mask.
pub record Table (K : Type 0) : Type 0 where
  pub is_open : K → ℕ → Bool
  pub mask : K → ℕ

module _ {K : Type 0} (t : Table K) where
  abbrev pub Same : K → K → Type 0
  Same k k' = (f : ℕ) → t.is_open k' f ≡ t.is_open k f

  -- One descriptor more.
  abbrev pub Opened : ℕ → K → K → Type 0
  Opened fd k k' =
      (t.is_open k fd ≡ false) × ((f : ℕ) → t.is_open k' f ≡ (f == fd) || t.is_open k f)

  -- One descriptor less.
  abbrev pub Closed : ℕ → K → K → Type 0
  Closed fd k k' = (f : ℕ) → t.is_open k' f ≡ not (f == fd) && t.is_open k f

  -- Neither the table nor the mask.
  abbrev pub Untouched : K → K → Type 0
  Untouched k k' = Same k k' × (t.mask k' ≡ t.mask k)

  abbrev pub OpensLaw : K → Option ℕ × K → Type 0
  OpensLaw k (none, k') = Untouched k k'
  OpensLaw k (some fd, k') = Opened fd k k' × (t.mask k' ≡ t.mask k)

  -- getaddrinfo does not succeed without an address.
  abbrev pub AddressesLaw : K → Option (List AddrInfo) × K → Type 0
  AddressesLaw k (none, k') = Untouched k k'
  AddressesLaw k (some found, k') = Untouched k k' × (found ≢ [])

  pub record AreSockets (s : Sockets K) : Type 0 where
    pub opens :
        (family kind protocol : ℕ) (k : K) → OpensLaw k (s.socket_call family kind protocol k)
    pub gets : (fd : ℕ) (k : K) → Untouched k ((s.get_flags fd k).1)
    pub sets : (fd flags : ℕ) (k : K) → Untouched k ((s.set_flags fd flags k).1)
    pub options :
        (fd level option value : ℕ) (k : K) → Untouched k ((s.set_option fd level option value k).1)
    pub closes :
        (fd : ℕ) (k : K) → Closed fd k (s.close_call fd k) × (t.mask (s.close_call fd k) ≡ t.mask k)
    pub binds : (fd : ℕ) (path : Text) (k : K) → Untouched k ((s.bind_call fd path k).1)
    pub unlinks : (path : Text) (k : K) → Untouched k (s.unlink path k)
    pub masks :
        (m : ℕ) (k : K)
        → ((s.umask m k).0 ≡ t.mask k)
          × Same k ((s.umask m k).1)
          × (t.mask ((s.umask m k).1) ≡ m % 512)
    pub addresses :
        (name port : Text) (flags family socktype : ℕ) (k : K)
        → AddressesLaw k (s.getaddrinfo name port flags family socktype k)
    pub frees : (found : List AddrInfo) (k : K) → Untouched k (s.freeaddrinfo found k)

  pub Untouched-trans : {a b c : K} → Untouched a b → Untouched b c → Untouched a c
  Untouched-trans (same, mask) (same', mask') = ((λ f. same' f ∙ same f), mask' ∙ mask)

  pub Same-trans : {a b c : K} → Same a b → Same b c → Same a c
  Same-trans same same' = λ f. same' f ∙ same f

  pub Opened-Same : {fd : ℕ} {a b c : K} → Opened fd a b → Same b c → Opened fd a c
  Opened-Same (new, now) same = (new, (λ f. same f ∙ now f))

  pub Same-Opened : {fd : ℕ} {a b c : K} → Same a b → Opened fd b c → Opened fd a c
  Same-Opened {fd} same (new, now) =
      ((sym (same fd) ∙ new), (λ f. now f ∙ ap (λ b. (f == fd) || b) (same f)))

  -- What is closed right after it was opened leaves the table as it was.
  pub Opened-Closed : {fd : ℕ} {a b c : K} → Opened fd a b → Closed fd b c → Same a c
  Opened-Closed {fd} {a} (new, now) gone f = gone f ∙ ap (λ b. not (f == fd) && b) (now f) ∙ back f
    where
      the_same : (f : ℕ) → (f == fd) ≡ true → f ≡ fd
      the_same f h = ground arith

      back : (f : ℕ) → not (f == fd) && ((f == fd) || t.is_open a f) ≡ t.is_open a f
      back f = elim (Bool-cases (f == fd)) [
        | inl y ↦ rw (y, ap (t.is_open a) (the_same f y), new) refl
        | inr y ↦ rw y refl
      ]
