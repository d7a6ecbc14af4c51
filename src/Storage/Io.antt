-- ===== src/Storage/Io.antt =====
-- Calls that work on the file system: the state is kept when a call fails.
use planar.Base.{Bool, true, false, ◌≡◌, refl}
use planar.Base.Except.{ok, err}
use planar.Storage.{StorageError, StorageResult}

abbrev pub Io : Type 0 → Type 0 → Type 0
Io Fs A = Fs → Fs × StorageResult A

module _ {Fs A B : Type 0} where
  -- The rest of a call, after its first step.
  abbrev pub resume : (A → Io Fs B) → Fs → StorageResult A → Fs × StorageResult B
  resume next fs (ok value) = next value fs
  resume next fs (err e) = (fs, err e)

  infixl 5 ◌>>=◌
  abbrev pub ◌>>=◌ : Io Fs A → (A → Io Fs B) → Io Fs B
  (first >>= next) fs = resume next (first fs).0 (first fs).1

module _ {Fs A : Type 0} where
  infixl 5 ◌>>◌
  abbrev pub ◌>>◌ : Io Fs (Unit {0}) → Io Fs A → Io Fs A
  first >> second = first >>= λ done. second

  -- A step that does not touch the file system.
  abbrev pub lift : StorageResult A → Io Fs A
  lift result fs = (fs, result)

  abbrev pub return : A → Io Fs A
  return value = lift (ok value)

module _ {Fs : Type 0} where
  abbrev pub guard : Bool → StorageError → Io Fs (Unit {0})
  guard true e = lift (ok tt)
  guard false e = lift (err e)

module _ {Fs A B : Type 0} where
  -- A chain that ends well: its first step did, and so did the rest from there.
  pub >>=-eq-ok :
      (first : Io Fs A) (next : A → Io Fs B) (fs : Fs) {result : B}
      → ((first >>= next) fs).1 ≡ ok result
      → (value : A) × ((first fs).1 ≡ ok value) × ((next value (first fs).0).1 ≡ ok result)
  >>=-eq-ok first next fs h = resumed (first fs).0 (first fs).1 h
    where
      resumed :
          (fs' : Fs) (r : StorageResult A) {result : B}
          → (resume next fs' r).1 ≡ ok result
          → (value : A) × (r ≡ ok value) × ((next value fs').1 ≡ ok result)
      resumed fs' (ok value) ended = (value, refl, ended)
      resumed fs' (err e) ended = cc
