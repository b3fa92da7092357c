-- ===== src/HostConfig/Kept.antt =====
-- What holds of a configuration before and after the steps that make it, of which any may fail.
use etas.Base.{Option, none, some, Bool, true, false, ◌≡◌}
use mathlib.Core.Path.{subst}
use etas.Diagnostics.{Result, ok, err, ◌>>=◌}
use etas.HostConfig.{UsageError}
use etas.HostConfig.Profile.{on_some, when}

-- `P` holds of a result that is no error.
pub data Kept {S : Type 0} (P : S → Type 0) : Result UsageError S → Type 0 where
  kept : {s : S} → P s → Kept P (ok s)
  failed : {e : UsageError} → Kept P (err e)

-- Where `P` holds before a step, `Q` holds after it.
pub record Keeps {S : Type 0} (P Q : S → Type 0) (f : S → Result UsageError S) : Type 0 where
  pub at : (s : S) → P s → Kept Q (f s)

ok-injective : {S : Type 0} {a b : S} → ◌≡◌ {A = Result UsageError S} (ok a) (ok b) → a ≡ b
ok-injective h = cc

module _ {S : Type 0} {P Q : S → Type 0} where
  pub Kept-then :
      {r : Result UsageError S} {f : S → Result UsageError S}
      → Kept P r
      → Keeps P Q f
      → Kept Q (r >>= f)
  Kept-then (kept p) g = g.at _ p
  Kept-then failed g = failed

module _ {S : Type 0} {P : S → Type 0} where
  pub Kept-value :
      {A : Type 0} (r : Result UsageError A) (f : A → Result UsageError S)
      → ((a : A) → Kept P (f a))
      → Kept P (r >>= f)
  Kept-value (ok a) f h = h a
  Kept-value (err e) f h = failed

  pub Keeps-on_some :
      {A : Type 0} (o : Option A) (f : A → S → Result UsageError S)
      → ((a : A) → Keeps P P (f a))
      → Keeps P P (on_some o f)
  Keeps-on_some none f h = record { at = λ s p. kept p }
  Keeps-on_some (some a) f h = h a

  pub Keeps-when :
      (test : Bool) (f : S → Result UsageError S) → Keeps P P f → Keeps P P (when test f)
  Keeps-when true f h = h
  Keeps-when false f h = record { at = λ s p. kept p }

  pub of-Kept : {s : S} {r : Result UsageError S} → Kept P r → r ≡ ok s → P s
  of-Kept (kept p) e = subst P (ok-injective e) p
  of-Kept failed e = cc
