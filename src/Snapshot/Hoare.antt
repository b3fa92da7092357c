-- ===== src/Snapshot/Hoare.antt =====
-- Rules for what holds after the reader's actions, one for each way to build an action.
use mathlib.Core.Path.{subst}
use etas.Base.{ℕ, ◌+◌, Option, none, some, Bool, true, false, ◌≡◌, refl}
use etas.Diagnostics.{Result, ok, err}
use etas.Snapshot.{SourceSnapshotError}
use etas.Snapshot.Reader.{Reader, M, access, ◌>>=◌, pure, fail, lift, expect, fail_when, with_self}

-- From a state with `P`, an action that does not fail gives a value and a state with `Q`.
pub record Hoare {E A : Type 0} (P : Reader E → Type 0) (m : M E A) (Q : A → Reader E → Type 0)
    : Type 0 where
  pub at : (r : Reader E) (a : A) (r' : Reader E) → P r → m r ≡ ok (a, r') → Q a r'

-- A run that ends without a panic, and whose result has `Q`.
abbrev pub Good : {E A : Type 0} → (A → Type 0) → Option (Result (SourceSnapshotError E) A) → Type 0
Good Q none = ⊥
Good Q (some (err e)) = Unit
Good Q (some (ok a)) = Q a

abbrev Holds :
    {E A : Type 0}
    → (A → Reader E → Type 0)
    → Result (SourceSnapshotError E) (A × Reader E)
    → Type 0
Holds Q (err e) = ⊥
Holds Q (ok (a, r)) = Q a r

module _ {E A : Type 0} {P : Reader E → Type 0} {Q : A → Reader E → Type 0} where
  pub Hoare-pure : (a : A) → ((r : Reader E) → P r → Q a r) → Hoare P (pure a) Q
  unfolding pure
  Hoare-pure a h = record { at = λ r b r' p e. subst (Holds Q) e (h r p) }

  pub Hoare-fail : (e : SourceSnapshotError E) → Hoare P (fail {A = A} e) Q
  unfolding fail
  Hoare-fail e = record { at = λ r a r' p k. absurd (cc) }

  pub Hoare-expect :
      (o : Option A) (e : SourceSnapshotError E)
      → ((a : A) (r : Reader E) → P r → o ≡ some a → Q a r)
      → Hoare P (expect o e) Q
  unfolding expect
  Hoare-expect none e h = record { at = λ r a r' p k. absurd (cc) }
  Hoare-expect (some b) e h = record { at = λ r a r' p k. subst (Holds Q) k (h b r p refl) }

  pub Hoare-lift :
      (o : Result (SourceSnapshotError E) A)
      → ((a : A) (r : Reader E) → P r → o ≡ ok a → Q a r)
      → Hoare P (lift o) Q
  unfolding lift
  Hoare-lift (err e) h = record { at = λ r a r' p k. absurd (cc) }
  Hoare-lift (ok b) h = record { at = λ r a r' p k. subst (Holds Q) k (h b r p refl) }

  pub Hoare-with_self :
      (f : Reader E → M E A)
      → ((s : Reader E) → P s → Hoare (λ r. r ≡ s) (f s) Q)
      → Hoare P (with_self f) Q
  unfolding with_self
  Hoare-with_self f h = record { at = λ r a r' p e. (h r p).at r a r' refl e }

module _ {E : Type 0} {P : Reader E → Type 0} {Q : Unit {0} → Reader E → Type 0} where
  pub Hoare-fail_when :
      (test : Bool) (e : SourceSnapshotError E)
      → ((r : Reader E) → P r → test ≡ false → Q tt r)
      → Hoare P (fail_when test e) Q
  unfolding fail_when
  Hoare-fail_when true e h = record { at = λ r a r' p k. absurd (cc) }
  Hoare-fail_when false e h = record { at = λ r a r' p k. subst (Holds Q) k (h r p refl) }

module _ {E : Type 0} {P : Reader E → Type 0} {Q : ℕ → Reader E → Type 0} where
  pub Hoare-access :
      (n : ℕ)
      → ((r : Reader E) → P r → Q r.accesses (record r { accesses = r.accesses + n }))
      → Hoare P (access n) Q
  unfolding access
  Hoare-access n h = record { at = λ r a r' p k. subst (Holds Q) k (h r p) }

module _ {E A B : Type 0} {Q : B → Reader E → Type 0} where
  bound :
      (R : A → Reader E → Type 0) (f : A → M E B) (r : Reader E)
      (res : Result (SourceSnapshotError E) (A × Reader E))
      → ((a : A) (r' : Reader E) → res ≡ ok (a, r') → R a r')
      → ((a : A) → Hoare (R a) (f a) Q)
      → (b : B) (r'' : Reader E)
      → (elim res as (λ _. Result (SourceSnapshotError E) (B × Reader E)) [
        | err e ↦ err e
        | ok (a, r') ↦ f a r'
      ])
        ≡ ok (b, r'')
      → Q b r''
  bound R f r (err e) hm hf b r'' k = absurd (cc)
  bound R f r (ok (a, r')) hm hf b r'' k = (hf a).at r' b r'' (hm a r' refl) k

module _ {E A B : Type 0} {P : Reader E → Type 0} {Q : B → Reader E → Type 0} where
  -- What holds between two actions is `R`.
  pub Hoare-bind :
      (R : A → Reader E → Type 0) (m : M E A) (f : A → M E B)
      → Hoare P m R
      → ((a : A) → Hoare (R a) (f a) Q)
      → Hoare P (m >>= f) Q
  unfolding ◌>>=◌
  Hoare-bind R m f hm hf = record {
    at = λ r b r'' p k. bound R f r (m r) (λ a r' e. hm.at r a r' p e) hf b r'' k;
  }

module _ {E A : Type 0} {P : Reader E → Type 0} {Q : A → Reader E → Type 0} where
  -- What the state's condition says besides about the state is a hypothesis.
  pub Hoare-and : {B C : Type 0} {m : M E A} → (B → C → Hoare P m Q) → Hoare (λ r. P r × B × C) m Q
  Hoare-and h = record { at = λ r a r' (p, b, c) e. (h b c).at r a r' p e }

  -- The state before the action has a name.
  pub Hoare-named : {m : M E A} → ((s : Reader E) → P s → Hoare (λ r. r ≡ s) m Q) → Hoare P m Q
  Hoare-named h = record { at = λ r a r' p e. (h r p).at r a r' refl e }

  pub Hoare-weaken :
      (R : Reader E → Type 0) {m : M E A} → ((r : Reader E) → P r → R r) → Hoare R m Q → Hoare P m Q
  Hoare-weaken R h k = record { at = λ r a r' p e. k.at r a r' (h r p) e }
