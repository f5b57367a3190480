-- ===== src/FileUtils/Directory/Making.antt =====
-- How far MakeDir of sutils/FileUtils.cpp goes along a path.
use vmodule.Base.{
  ℕ, ◌≡◌, refl, sym, ap, ◌∙◌, Bool, true, false, [], ◌∷◌, ◌++◌, append-nil, append_assoc, ◌==◌, All,
}
use vmodule.System.{no_error}
use vmodule.System.Files.{Text, Files}
use vmodule.FileUtils.Directory.{slash, do_make_dir, make_parents, make_dir}

abbrev pub AllSlashes : Text → Type 0
AllSlashes = All (λ x. (x == slash) ≡ true)

abbrev pub NoSlash : Text → Type 0
NoSlash = All (λ x. (x == slash) ≡ false)

module _ {K : Type 0} (f : Files K) (mode : ℕ) where
  over_slash :
      (before : Text) (x : ℕ) (rest : Text) (k : K)
      → (x == slash) ≡ true
      → make_parents f mode before true (x ∷ rest) k
        ≡ make_parents f mode (before ++ x ∷ []) true rest k
  unfolding make_parents
  over_slash before x rest k e = rw e refl

  over_other :
      (before : Text) (at_start : Bool) (x : ℕ) (rest : Text) (k : K)
      → (x == slash) ≡ false
      → make_parents f mode before at_start (x ∷ rest) k
        ≡ make_parents f mode (before ++ x ∷ []) false rest k
  unfolding make_parents
  over_other before at_start x rest k e = rw e refl

  stops_at_slash :
      (before : Text) (rest : Text) (k k' : K)
      → do_make_dir f before mode k ≡ (no_error, k')
      → make_parents f mode before false (slash ∷ rest) k ≡ (false, k')
  unfolding make_parents
  stops_at_slash before rest k k' e = rw e refl

  along :
      (before p rest : Text) (k k' : K)
      → NoSlash p
      → do_make_dir f (before ++ p) mode k ≡ (no_error, k')
      → make_parents f mode before false (p ++ slash ∷ rest) k ≡ (false, k')
  along before [] rest k k' none_here e =
      stops_at_slash before rest k k'
        (ap (λ b. do_make_dir f b mode k) (sym (append-nil before)) ∙ e)
  along before (x ∷ p) rest k k' (other, others) e =
      over_other before false x (p ++ slash ∷ rest) k other
      ∙ along (before ++ x ∷ []) p rest k k' others
          (ap (λ b. do_make_dir f b mode k) (append_assoc before (x ∷ []) p) ∙ e)

  from_start :
      (before slashes : Text) (x : ℕ) (p rest : Text) (k k' : K)
      → AllSlashes slashes
      → NoSlash (x ∷ p)
      → do_make_dir f (before ++ (slashes ++ x ∷ p)) mode k ≡ (no_error, k')
      → make_parents f mode before true (slashes ++ x ∷ p ++ slash ∷ rest) k ≡ (false, k')
  from_start before [] x p rest k k' _ (other, others) e =
      let e' : do_make_dir f (before ++ x ∷ p) mode k ≡ (no_error, k') = e in
      over_other before true x (p ++ slash ∷ rest) k other
      ∙ along (before ++ x ∷ []) p rest k k' others
          (ap (λ b. do_make_dir f b mode k) (append_assoc before (x ∷ []) p) ∙ e')
  from_start before (y ∷ slashes) x p rest k k' (here, more) others e =
      over_slash before y (slashes ++ x ∷ p ++ slash ∷ rest) k here
      ∙ from_start (before ++ y ∷ []) slashes x p rest k k' more others
          (ap (λ b. do_make_dir f b mode k) (append_assoc before (y ∷ []) (slashes ++ x ∷ p)) ∙ e)

  -- Where DoMakeDir succeeds on the first component of a path that goes on after it, MakeDir stops
  -- there and returns OK, and makes nothing of the rest of the path.
  pub make_dir-first_only :
      (slashes : Text) (x : ℕ) (p rest : Text) (k k' : K)
      → AllSlashes slashes
      → NoSlash (x ∷ p)
      → do_make_dir f (slashes ++ x ∷ p) mode k ≡ (no_error, k')
      → make_dir f (slashes ++ x ∷ p ++ slash ∷ rest) mode k ≡ (no_error, k')
  unfolding make_dir
  make_dir-first_only slashes x p rest k k' all none_here e =
      rw (from_start [] slashes x p rest k k' all none_here e) refl
