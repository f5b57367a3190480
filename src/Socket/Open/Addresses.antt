-- ===== src/Socket/Open/Addresses.antt =====
-- What NewSocket of socket/Socket.cpp does with each address, and which descriptors it leaves open.
use vmodule.Base.{
  ℕ, ◌≡◌, refl, ap, sym, ◌∙◌, inl, inr, Bool, true, false, ◌||◌, Bool-cases, Option, none, some,
  List, [], ◌∷◌, ◌==◌, has, ℤ, pos, negsuc, arith,
}
use vmodule.System.{emfile}
use vmodule.System.Descriptors.{
  Text, AddrInfo, Sockets, Table, Same, Opened, OpensLaw, AddressesLaw, AreSockets, Same-trans,
  Opened-Same, Opened-Closed,
}
use vmodule.Socket.Open.{
  Protocol, local_socket, tcp_socket, udp_socket, af_inet6, open_socket, inet_options, if_v6_only,
  next_address, new_socket_loop, end_new_socket, socktype_of, port_of, on_addresses, new_socket,
}
use vmodule.Socket.Open.Kept.{open_socket-OpensLaw}

-- What becomes of an address: no socket; one that is closed again; or one that stays open.
pub data Fate : Type 0 where
  unopened : Fate
  refused : ℕ → Fate
  kept : ℕ → Fate

abbrev pub kept_fds : List (AddrInfo × Fate) → List ℕ
kept_fds [] = []
kept_fds ((ai, unopened) ∷ done) = kept_fds done
kept_fds ((ai, refused fd) ∷ done) = kept_fds done
kept_fds ((ai, kept fd) ∷ done) = fd ∷ kept_fds done

-- The addresses tried, of which the last comes first, and then the rest.
abbrev pub told : List (AddrInfo × Fate) → List AddrInfo → List AddrInfo
told [] rest = rest
told ((ai, fate) ∷ done) rest = told done (ai ∷ rest)

-- What the last address tried leaves to return.
abbrev pub answer : List (AddrInfo × Fate) → ℤ
answer [] = negsuc 0
answer ((ai, unopened) ∷ done) = negsuc 0
answer ((ai, refused fd) ∷ done) = pos fd
answer ((ai, kept fd) ∷ done) = pos fd

true-false : true ≡ false → ⊥
true-false e = cc

module _ {K : Type 0} {s : Sockets K} {t : Table K} (law : AreSockets t s) where
  inet_options-Same :
      (transport : Protocol) (fd : ℕ) (k : K) → Same t k (inet_options s transport fd k)
  inet_options-Same local_socket fd k = (law.options fd 1 2 1 k).0
  inet_options-Same udp_socket fd k = (law.options fd 1 2 1 k).0
  inet_options-Same tcp_socket fd k = Same-trans t ((law.options fd 1 2 1 k).0) (
      Same-trans t ((law.options fd 1 9 1 _).0)
        (Same-trans t ((law.options fd 1 13 0 _).0) ((law.options fd 6 1 1 _).0)))

  module _ (blocking : Bool) (found : List AddrInfo) (start : K) where
    abbrev pub HasFate : AddrInfo → Fate → Type 0
    HasFate ai unopened =
        (k k' : K) × (open_socket s ai blocking k ≡ (none, k')) × ((s.errno k' == emfile) ≡ false)
    HasFate ai (refused fd) =
        (k k' : K) × (open_socket s ai blocking k ≡ (some fd, k'))
        × ((ai.ai_family == af_inet6) ≡ true)
        × ((s.set_option fd 41 26 1 k').0 ≡ false)
    HasFate ai (kept fd) =
        (k k' : K) × (open_socket s ai blocking k ≡ (some fd, k'))
        × ((ai.ai_family == af_inet6) ≡ true → (s.set_option fd 41 26 1 k').0 ≡ true)

    abbrev pub AllHave : List (AddrInfo × Fate) → Type 0
    AllHave [] = Unit
    AllHave ((ai, fate) ∷ done) = HasFate ai fate × AllHave done

    -- The open descriptors are those of before and the kept ones.
    abbrev pub Grown : List (AddrInfo × Fate) → K → Type 0
    Grown done k = (f : ℕ) → t.is_open k f ≡ has f (kept_fds done) || t.is_open start f

    -- The descriptor of the last address is closed, if it was refused.
    abbrev pub Shut : List (AddrInfo × Fate) → K → Type 0
    Shut [] k = Unit
    Shut ((ai, unopened) ∷ done) k = Unit
    Shut ((ai, refused fd) ∷ done) k = t.is_open k fd ≡ false
    Shut ((ai, kept fd) ∷ done) k = Unit

    -- By the addresses left over: all were tried, or errno was EMFILE for the first of them.
    abbrev pub Ending : ℤ → K → List (AddrInfo × Fate) → List AddrInfo → Type 0
    Ending r k done [] = (r ≡ answer done) × Shut done k
    Ending r k done (ai ∷ rest) =
        (r ≡ negsuc 0)
        × ((k₁ k₂ : K) × (open_socket s ai blocking k₁ ≡ (none, k₂))
            × ((s.errno k₂ == emfile) ≡ true))

    abbrev pub Leaves : ℤ → K → Type 0
    Leaves r k =
        (done : List (AddrInfo × Fate)) × (rest : List AddrInfo) × (found ≡ told done rest)
        × AllHave done
        × Grown done k
        × Ending r k done rest

    grow :
        (done : List (AddrInfo × Fate)) (ai : AddrInfo) (fd : ℕ) (k k' : K)
        → Grown done k
        → Opened t fd k k'
        → Grown ((ai, kept fd) ∷ done) k'
    grow done ai fd k k' grown (_, now) f =
        rw (now f, grown f) (or_assoc (f == fd) (has f (kept_fds done)) _)
      where
        or_assoc : (a b c : Bool) → a || (b || c) ≡ (a || b) || c
        or_assoc true b c = refl
        or_assoc false b c = refl

    keep : (done : List (AddrInfo × Fate)) (k k' : K) → Grown done k → Same t k k' → Grown done k'
    keep done k k' grown same f = same f ∙ grown f

    stand : (done : List (AddrInfo × Fate)) (k k' : K) → Shut done k → Same t k k' → Shut done k'
    stand [] k k' shut same = tt
    stand ((ai, unopened) ∷ done) k k' shut same = tt
    stand ((ai, refused fd) ∷ done) k k' shut same = same fd ∙ shut
    stand ((ai, kept fd) ∷ done) k k' shut same = tt

    abbrev Again : List AddrInfo → (ℤ → K → Bool × ℤ × K) → Type 0
    Again next again =
        (sfd : ℤ) (done : List (AddrInfo × Fate)) (k : K)
        → found ≡ told done next
        → AllHave done
        → Grown done k
        → sfd ≡ answer done
        → Shut done k
        → Leaves ((again sfd k).1) ((again sfd k).2)

    v6-Leaves :
        (transport : Protocol) (ai : AddrInfo) (next : List AddrInfo) (again : ℤ → K → Bool × ℤ × K)
        → Again next again
        → (done : List (AddrInfo × Fate)) (k k' : K) (fd : ℕ) → found ≡ told done (ai ∷ next)
        → AllHave done
        → Grown done k
        → (ai.ai_family == af_inet6) ≡ true
        → open_socket s ai blocking k ≡ (some fd, k')
        → Opened t fd k k'
        → (got : Bool × K) → s.set_option fd 41 26 1 k' ≡ got
        → Same t k' (got.1)
        → Leaves ((if_v6_only s transport fd again got).1) ((if_v6_only s transport fd again got).2)
    v6-Leaves transport ai next again goes done k k' fd all fates grown v6 o new (true, k'') g
          same =
        let new' = Opened-Same t new (Same-trans t same (inet_options-Same transport fd k'')) in
        goes (pos fd) ((ai, kept fd) ∷ done) _ all ((k, k', o, λ _. ap (λ x. x.0) g), fates)
          (grow done ai fd k _ grown new') refl tt
    v6-Leaves transport ai next again goes done k k' fd all fates grown v6 o new (false, k'') g
          same =
        let gone = (law.closes fd k'').0 in
        let shut : t.is_open (s.close_call fd k'') fd ≡ false =
          let e : (fd == fd) ≡ true = ground arith in gone fd ∙ rw e refl in
        goes (pos fd) ((ai, refused fd) ∷ done) _ all ((k, k', o, v6, ap (λ x. x.0) g), fates)
          (keep done k _ grown (Opened-Closed t (Opened-Same t new same) gone)) refl shut

    next-Leaves :
        (transport : Protocol) (ai : AddrInfo) (next : List AddrInfo) (again : ℤ → K → Bool × ℤ × K)
        → Again next again
        → (done : List (AddrInfo × Fate)) (k : K) → found ≡ told done (ai ∷ next)
        → AllHave done
        → Grown done k
        → (got : Option ℕ × K) → open_socket s ai blocking k ≡ got
        → OpensLaw t k got
        → Leaves
            ((next_address s transport ai again got).1)
            ((next_address s transport ai again got).2)
    next-Leaves transport ai next again goes done k all fates grown (none, k') o (same, _) =
        elim (Bool-cases (s.errno k' == emfile)) [
          | inl y ↦
              rw y (done, ai ∷ next, all, fates, keep done k k' grown same, (refl, (k, k', o, y)))
          | inr y ↦ rw y (
              goes (negsuc 0) ((ai, unopened) ∷ done) k' all ((k, k', o, y), fates)
                (keep done k k' grown same) refl tt)
        ]
    next-Leaves transport ai next again goes done k all fates grown (some fd, k') o (new, _) =
        elim (Bool-cases (ai.ai_family == af_inet6)) [
          | inl y ↦ rw y (
              v6-Leaves transport ai next again goes done k k' fd all fates grown y o new
                (s.set_option fd 41 26 1 k') refl ((law.options fd 41 26 1 k').0))
          | inr y ↦
              let new' = Opened-Same t new (inet_options-Same transport fd k') in
              rw y (
                goes (pos fd) ((ai, kept fd) ∷ done) _ all
                  ((k, k', o, λ e. absurd (true-false (sym e ∙ y))), fates)
                  (grow done ai fd k _ grown new') refl tt)
        ]

    loop-Leaves :
        (transport : Protocol) (next : List AddrInfo)
        → Again next (new_socket_loop s transport blocking next)
    unfolding new_socket_loop
    loop-Leaves transport [] sfd done k all fates grown e shut =
        (done, [], all, fates, grown, (e, shut))
    loop-Leaves transport (ai ∷ next) sfd done k all fates grown e shut =
        next-Leaves transport ai next (new_socket_loop s transport blocking next)
          (loop-Leaves transport next) done k all fates grown (open_socket s ai blocking k) refl
          (open_socket-OpensLaw law ai blocking k)

    ended-Leaves :
        (got : Bool × ℤ × K)
        → Leaves (got.1) (got.2)
        → Leaves ((end_new_socket s found got).0) ((end_new_socket s found got).1)
    ended-Leaves (true, r, k) h = h
    ended-Leaves (false, r, k) (done, [], all, fates, grown, (e, shut)) =
        let same = (law.frees found k).0 in
        (done, [], all, fates, keep done k _ grown same, (e, stand done k _ shut same))
    ended-Leaves (false, r, k) (done, ai ∷ rest, all, fates, grown, (e, emfile_at)) =
        let same = (law.frees found k).0 in
        (done, ai ∷ rest, all, fates, keep done k _ grown same, (e, emfile_at))

  -- By what getaddrinfo found: 1 and no change, or what happens to each address.
  abbrev pub NewSocketLaw : Bool → K → Option (List AddrInfo) → ℤ × K → Type 0
  NewSocketLaw blocking k none made = (made.0 ≡ pos 1) × Same t k (made.1)
  NewSocketLaw blocking k (some found) made = Leaves blocking found k (made.0) (made.1)

  -- NewSocket returns 1 and opens nothing where getaddrinfo fails; else it tries the addresses in
  -- their order until none is left or a socket fails with EMFILE; an address is unopened, where
  -- Socket fails with another error; refused, where IPV6_V6ONLY fails for its new descriptor, and
  -- only for AF_INET6; or kept; the open descriptors are then those of before and all the kept
  -- ones, not only the one returned; NewSocket returns -1 after EMFILE or where the last address is
  -- unopened, and otherwise the descriptor of the last address, closed already if it was refused.
  pub new_socket-NewSocketLaw :
      (decimal : ℤ → Text) (unset : ℤ) (name : Text) (port : ℤ) (transport : Protocol)
      (blocking : Bool) (k : K)
      → NewSocketLaw blocking k
          ((s.getaddrinfo name (decimal (port_of port)) 1 0 (socktype_of transport) k).0)
          (new_socket s decimal unset name port transport blocking k)
  unfolding new_socket new_socket_loop
  new_socket-NewSocketLaw decimal unset name port transport blocking k =
      go (s.getaddrinfo name (decimal (port_of port)) 1 0 (socktype_of transport) k)
        (law.addresses name (decimal (port_of port)) 1 0 (socktype_of transport) k)
    where
      loop : List AddrInfo → K → Bool × ℤ × K
      loop found k' = new_socket_loop s transport blocking found unset k'

      go :
          (got : Option (List AddrInfo) × K)
          → AddressesLaw t k got
          → NewSocketLaw blocking k (got.0) (on_addresses s loop got)
      go (none, k') (same, _) = (refl, same)
      go (some [], k') (_, some_address) = absurd (some_address refl)
      go (some (ai ∷ next), k') ((same, _), _) =
          let found : List AddrInfo = ai ∷ next in
          ended-Leaves blocking found k _ (
            next-Leaves blocking found k transport ai next
              (new_socket_loop s transport blocking next)
              (loop-Leaves blocking found k transport next) [] k' refl tt same
              (open_socket s ai blocking k') refl (open_socket-OpensLaw law ai blocking k'))
