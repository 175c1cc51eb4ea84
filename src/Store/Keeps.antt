-- ===== src/Store/Keeps.antt =====
-- What a call keeps true of the store, whether it returns or raises.
use openeos_api.Base.{◌≡◌, refl, Bool, true, false, Option, none, some}
use openeos_api.Store.{
  Store, M, Result, ok, err, Exception, or_raise, raise_if, when, ◌>>=◌, and_then,
}

-- A call after which `I` holds of the store, given that it holds before.
pub record Keeps {ℓ} (I : Store → Type 0) {A : Type ℓ} (m : M A) : Type 0 where
  pub run : (s : Store) → I s → I (m s).1

module _ (I : Store → Type 0) where
  pub Keeps-bind {ℓ κ} :
      {A : Type ℓ} {B : Type κ} (m : M A) (f : A → M B)
      → Keeps I m
      → ((a : A) → Keeps I (f a))
      → Keeps I (m >>= f)
  Keeps-bind m f k h = record { run = λ s i. after (m s) (k.run s i) }
    where
      after : (r : Result _ × Store) → I r.1 → I (and_then r f).1
      after (ok a, t) j = (h a).run t j
      after (err e, t) j = j

  -- The same rules at one state.
  pub after_bind {ℓ κ} :
      {A : Type ℓ} {B : Type κ} (m : M A) (f : A → M B) (s : Store)
      → I (m s).1
      → ((a : A) → Keeps I (f a))
      → I ((m >>= f) s).1
  after_bind m f s j h = after (m s) j
    where
      after : (r : Result _ × Store) → I r.1 → I (and_then r f).1
      after (ok a, t) i = (h a).run t i
      after (err e, t) i = i

  pub after_keeps {ℓ κ} :
      {A : Type ℓ} {B : Type κ} (m : M A) (f : A → M B) (s : Store)
      → I s
      → Keeps I m
      → ((a : A) → Keeps I (f a))
      → I ((m >>= f) s).1
  after_keeps m f s i k h = after_bind m f s (k.run s i) h

  pub after_when :
      (b : Bool) (m : M (Unit {0})) (s : Store) → I s → (b ≡ true → I (m s).1) → I (when b m s).1
  after_when true m s i h = h refl
  after_when false m s i h = i

  -- What follows a check that was passed may assume that it was.
  pub after_raise_if {ℓ} :
      (b : Bool) (e : Exception) {A : Type ℓ} (k : M A) (s : Store)
      → I s
      → (b ≡ false → I (k s).1)
      → I ((raise_if b e >>= λ _. k) s).1
  after_raise_if true e k s i h = i
  after_raise_if false e k s i h = h refl

  pub after_or_raise {ℓ κ} :
      {A : Type ℓ} {B : Type κ} (o : Option A) (e : Exception) (k : A → M B) (s : Store)
      → I s
      → ((a : A) → o ≡ some a → I (k a s).1)
      → I ((or_raise o e >>= k) s).1
  after_or_raise none e k s i h = i
  after_or_raise (some a) e k s i h = h a refl

  pub Keeps-or_raise {ℓ} : {A : Type ℓ} (o : Option A) (e : Exception) → Keeps I (or_raise o e)
  Keeps-or_raise none e = record { run = λ s i. i }
  Keeps-or_raise (some a) e = record { run = λ s i. i }

  pub Keeps-raise_if : (b : Bool) (e : Exception) → Keeps I (raise_if b e)
  Keeps-raise_if true e = record { run = λ s i. i }
  Keeps-raise_if false e = record { run = λ s i. i }

  pub Keeps-when : (b : Bool) (m : M (Unit {0})) → Keeps I m → Keeps I (when b m)
  Keeps-when true m k = k
  Keeps-when false m k = record { run = λ s i. i }
