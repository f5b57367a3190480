-- ===== src/Socket/Open/Kept.antt =====
-- Which descriptors are open after the functions of socket/Socket.cpp that open sockets.
use vmodule.Base.{
  ℕ, ◌<◌, ◌%◌, subst, ◌≡◌, refl, sym, ◌∙◌, ◌⊎◌, inl, inr, Bool, true, false, Bool-cases, Option,
  none, some, leb, length, ℤ, pos, negsuc, arith,
}
use vmodule.System.Descriptors.{
  Text, AddrInfo, Sockets, Table, Same, Opened, Untouched, OpensLaw, AreSockets, Same-trans,
  Opened-Same, Opened-Closed, Untouched-trans,
}
use vmodule.Socket.Open.{
  path_limit, add_nonblock, make_ready, close_unless_ready, if_opened, open_socket, end_bind,
  bind_masked, denied, unlink_socket, unix_options, name_unix_socket, flags_or, if_unix_ready,
  if_unix_opened, new_unix_socket,
}

module _ {K : Type 0} {s : Sockets K} {t : Table K} (law : AreSockets t s) where
  make_ready-Untouched :
      (blocking : Bool) (fd : ℕ) (k : K) → Untouched t k ((make_ready s blocking fd k).2)
  make_ready-Untouched true fd k = ((λ f. refl), refl)
  make_ready-Untouched false fd k = go (s.get_flags fd k) (law.gets fd k)
    where
      go : (got : Option ℕ × K) → Untouched t k (got.1) → Untouched t k ((add_nonblock s fd got).2)
      go (none, k') h = h
      go (some flags, k') h = Untouched-trans t h (law.sets fd _ k')

  -- A descriptor that is closed right after its set-up leaves nothing behind.
  undone :
      (fd : ℕ) (k k' k'' : K)
      → Opened t fd k k'
      → t.mask k' ≡ t.mask k
      → Untouched t k' k''
      → Untouched t k (s.close_call fd k'')
  undone fd k k' k'' new mask (same, mask') =
      let gone = law.closes fd k'' in
      (Opened-Closed t (Opened-Same t new same) (gone.0), gone.1 ∙ mask' ∙ mask)

  -- A descriptor more for a result, and the table and the mask as they were for -1.
  pub open_socket-OpensLaw :
      (ai : AddrInfo) (blocking : Bool) (k : K) → OpensLaw t k (open_socket s ai blocking k)
  unfolding open_socket
  open_socket-OpensLaw ai blocking k =
      go (s.socket_call ai.ai_family ai.ai_socktype ai.ai_protocol k) (law.opens _ _ _ k)
    where
      ready :
          (fd : ℕ) (k' : K)
          → Opened t fd k k'
          → t.mask k' ≡ t.mask k
          → (got : Bool × Option ℕ × K) → Untouched t k' (got.2)
          → OpensLaw t k (close_unless_ready s fd got)
      ready fd k' new mask (true, flags, k'') (same, mask') = (Opened-Same t new same, mask' ∙ mask)
      ready fd k' new mask (false, flags, k'') h = undone fd k k' k'' new mask h

      go : (got : Option ℕ × K) → OpensLaw t k got → OpensLaw t k (if_opened s blocking got)
      go (none, k') h = h
      go (some fd, k') (new, mask) =
          ready fd k' new mask (make_ready s blocking fd k') (make_ready-Untouched blocking fd k')

  -- What NewUnixSocket leaves: a descriptor more for the one it returns, or the table as it was for
  -- -1 and 1. The mask is as it was. The assert fails only at a path that is too long.
  abbrev pub UnixLaw : K → Text → Option (ℤ × K) → Type 0
  UnixLaw k path none = path_limit < length path
  UnixLaw k path (some (r, k')) =
      (((fd : ℕ) × (r ≡ pos fd) × Opened t fd k k')
        ⊎ (((r ≡ negsuc 0) ⊎ (r ≡ pos 1)) × Same t k k'))
      × (t.mask k' ≡ t.mask k)

  unlink_socket-Untouched : (path : Text) (k : K) → Untouched t k (unlink_socket s path k)
  unlink_socket-Untouched path k = elim (Bool-cases (s.is_socket_file path k)) [
    | inl y ↦ rw y (law.unlinks path k)
    | inr y ↦ rw y ((λ f. refl), refl)
  ]

  options-Untouched :
      (fd level option value : ℕ) {k k' : K}
      → Untouched t k k'
      → Untouched t k ((s.set_option fd level option value k').1)
  options-Untouched fd level option value {k} {k'} h =
      Untouched-trans t h (law.options fd level option value k')

  bind_masked-UnixLaw :
      (fd m : ℕ) (path : Text) (k k' : K)
      → t.mask k < 512
      → Opened t fd k k'
      → t.mask k' ≡ t.mask k
      → UnixLaw k path (some (bind_masked s fd path (s.umask m k')))
  bind_masked-UnixLaw fd m path k k' small new mask = go (s.umask m k') (law.masks m k')
    where
      -- The mask that is put back is the first one.
      back : (k'' : K) → t.mask ((s.umask (t.mask k') k'').1) ≡ t.mask k
      back k'' = let e = law.masks (t.mask k') k'' in e.2 ∙ omega arith

      bound :
          (k1 : K)
          → Same t k' k1
          → (got : Bool × K) → Untouched t k1 (got.1)
          → UnixLaw k path (some (end_bind s fd (t.mask k') got))
      bound k1 same1 (true, k2) (same2, _) =
          let same3 = Same-trans t same1 (Same-trans t same2 ((law.masks (t.mask k') k2).1)) in
          (inl (fd, refl, Opened-Same t new same3), back k2)
      bound k1 same1 (false, k2) (same2, _) =
          let k3 = s.close_call fd k2 in
          let gone =
            Opened-Closed t (Opened-Same t new (Same-trans t same1 same2)) ((law.closes fd k2).0) in
          (inr (inr refl, Same-trans t gone ((law.masks (t.mask k') k3).1)), back k3)

      go :
          (got : ℕ × K)
          → (got.0 ≡ t.mask k') × Same t k' (got.1) × (t.mask (got.1) ≡ m % 512)
          → UnixLaw k path (some (bind_masked s fd path got))
      go (old, k1) (e, same1, _) =
          subst (λ o. UnixLaw k path (some (end_bind s fd o (s.bind_call fd path k1)))) (sym e)
            (bound k1 same1 (s.bind_call fd path k1) (law.binds fd path k1))

  name_unix_socket-UnixLaw :
      (fd flags access_mask : ℕ) (path : Text) (k k' : K)
      → t.mask k < 512
      → Opened t fd k k'
      → t.mask k' ≡ t.mask k
      → UnixLaw k path (name_unix_socket s fd flags access_mask path k')
  name_unix_socket-UnixLaw fd flags access_mask path k k' small new mask =
      elim (Bool-cases (leb (length path) path_limit)) [
        | inl y ↦ rw y (
            bind_masked-UnixLaw fd (denied access_mask) path k _ small (Opened-Same t new (same.0))
              (same.1 ∙ mask))
        | inr y ↦ rw y (ground arith)
      ]
    where
      same : Untouched t k' (unix_options s fd flags (unlink_socket s path k'))
      same = options-Untouched fd 1 13 0 (
          options-Untouched fd 1 9 flags
            (options-Untouched fd 1 2 flags (unlink_socket-Untouched path k')))

  -- With a path and a file mode mask of nine bits, NewUnixSocket returns a descriptor that was not
  -- open, with no other opened or closed, or -1 or 1 with the open descriptors as before; the mask
  -- is as before in every case; its assert fails only at a path of more than 107 characters.
  pub new_unix_socket-UnixLaw :
      (unset : ℕ) (path : Text) (access_mask : ℕ) (blocking : Bool) (k : K)
      → t.mask k < 512
      → UnixLaw k path (new_unix_socket s unset (some path) access_mask blocking k)
  unfolding new_unix_socket
  new_unix_socket-UnixLaw unset path access_mask blocking k small =
      go (s.socket_call 1 1 0 k) (law.opens 1 1 0 k)
    where
      ready :
          (fd : ℕ) (k' : K)
          → Opened t fd k k'
          → t.mask k' ≡ t.mask k
          → (got : Bool × Option ℕ × K) → Untouched t k' (got.2)
          → UnixLaw k path (if_unix_ready s fd unset access_mask path got)
      ready fd k' new mask (true, flags, k'') (same, mask') =
          name_unix_socket-UnixLaw fd (flags_or unset flags) access_mask path k k'' small
            (Opened-Same t new same) (mask' ∙ mask)
      ready fd k' new mask (false, flags, k'') h =
          let gone = undone fd k k' k'' new mask h in (inr (inl refl, gone.0), gone.1)

      go :
          (got : Option ℕ × K)
          → OpensLaw t k got
          → UnixLaw k path (if_unix_opened s unset access_mask blocking path got)
      go (none, k') (same, mask) = (inr (inl refl, same), mask)
      go (some fd, k') (new, mask) =
          ready fd k' new mask (make_ready s blocking fd k') (make_ready-Untouched blocking fd k')
