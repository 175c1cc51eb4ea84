-- ===== src/Store/Reads.antt =====
-- Calls that only read, and what holds of the answer of a call that begins with one: the two outcomes
-- of a check, and the rules that pass it.
use openeos_api.Base.{◌≡◌, refl, Bool, true, false, Option, none, some}
use openeos_api.Store.{Store, M, Result, ok, err, Exception, or_raise, raise_if, ◌>>=◌, ◌>>◌}

-- The result of a call at `s` that raises or returns, and leaves the store as it is.
pub data Reads {ℓ} {A : Type ℓ} (r : Result A × Store) (s : Store) : Type ℓ where
  raises : (x : Exception) → r ≡ (err x, s) → Reads r s
  returns : (a : A) → r ≡ (ok a, s) → Reads r s

module _ {ℓ κ} {A : Type ℓ} {B : Type κ} where
  pub Reads-bind :
      (m : M A) (f : A → M B) (s : Store)
      → Reads (m s) s
      → ((a : A) → m s ≡ (ok a, s) → Reads (f a s) s)
      → Reads ((m >>= f) s) s
  Reads-bind m f s (raises x e) h = raises x (rw e)
  Reads-bind m f s (returns a e) h = elim (h a e) [
    | raises x g ↦ raises x (rw (e, g))
    | returns b g ↦ returns b (rw (e, g))
  ]

  -- What holds of an exception at `s` and after the rest holds after the check and the rest.
  pub after_reads {ν} :
      (P : Result B × Store → Type ν) (m : M A) (f : A → M B) (s : Store)
      → ((x : Exception) → P (err x, s))
      → Reads (m s) s
      → ((a : A) → m s ≡ (ok a, s) → P (f a s))
      → P ((m >>= f) s)
  after_reads P m f s bad (raises x e) h = rw e (bad x)
  after_reads P m f s bad (returns a e) h = rw e (h a e)

  pub after_some {ν} :
      (P : Result B × Store → Type ν) (o : Option A) (x : Exception) (f : A → M B) (s : Store)
      → P (err x, s)
      → ((a : A) → o ≡ some a → P (f a s))
      → P ((or_raise o x >>= f) s)
  after_some P none x f s bad h = bad
  after_some P (some a) x f s bad h = h a refl

pub after_guard {κ ν} :
    {B : Type κ} (P : Result B × Store → Type ν) (b : Bool) (x : Exception) (k : M B) (s : Store)
    → P (err x, s)
    → (b ≡ false → P (k s))
    → P ((raise_if b x >> k) s)
after_guard P true x k s bad h = bad
after_guard P false x k s bad h = h refl

pub Reads-or_raise {ℓ} :
    {A : Type ℓ} (o : Option A) (x : Exception) (s : Store) → Reads (or_raise o x s) s
Reads-or_raise none x s = raises x refl
Reads-or_raise (some a) x s = returns a refl

pub Reads-raise_if : (b : Bool) (x : Exception) (s : Store) → Reads (raise_if b x s) s
Reads-raise_if true x s = raises x refl
Reads-raise_if false x s = returns tt refl
