-- ===== src/Diagnostics.antt =====
-- crates/etas_package/src/diagnostics.rs. Of a message only the values that it shows are kept, in
-- order; its wording is not modelled. Of an I/O, TOML or JSON error only the path is kept.
use etas.Base.{Text, String, Option, none, some, List, [], ◌∷◌, Bool, if◌then◌else◌, ◌≡◌, arith}
use etas.Base.{◌↔◌, false, true, ◌++◌, append-eq-nil, concat_map, All, refl}

pub record PackageDiagnostic : Type 0 where
  pub code : String
  pub message : List Text
  pub path : Option Text

pub data PackageError : Type 0 where
  io manifest_error lockfile_error : Text → PackageError
  diagnostics : List PackageDiagnostic → PackageError

abbrev pub diagnostic : String → List Text → Option Text → PackageError
diagnostic code message path =
    diagnostics (record { code = code; message = message; path = path } ∷ [])

-- `if test { diagnostics.push(..) }`: what the statement adds.
abbrev pub report_if : Bool → PackageDiagnostic → List PackageDiagnostic
report_if test d = if test then d ∷ [] else []

pub report_if-eq-nil : (b : Bool) (d : PackageDiagnostic) → (report_if b d ≡ []) ↔ (b ≡ false)
report_if-eq-nil b d = ground arith

-- `Result<A, E>`
pub data Result {ℓ} (E A : Type ℓ) : Type ℓ where
  ok : A → Result E A
  err : E → Result E A

infixl 10 ◌>>=◌ ◌>>◌
abbrev pub ◌>>=◌ {ℓ} : {E A B : Type ℓ} → Result E A → (A → Result E B) → Result E B
ok a >>= f = f a
err e >>= f = err e

abbrev pub ◌>>◌ : {E B : Type 0} → Result E (Unit {0}) → Result E B → Result E B
m >> k = m >>= λ _. k

-- `if test { return Err(e) }`
abbrev pub fail_if : {E : Type 0} → Bool → E → Result E (Unit {0})
fail_if true e = err e
fail_if false e = ok tt

-- `option.ok_or(e)?`
abbrev pub ok_or : {E A : Type 0} → Option A → E → Result E A
ok_or none e = err e
ok_or (some a) e = ok a

-- `if diagnostics.is_empty() { Ok(a) } else { Err(PackageError::Diagnostics(diagnostics)) }`
abbrev pub ok_unless : {A : Type 0} → List PackageDiagnostic → A → Result PackageError A
ok_unless [] a = ok a
ok_unless (d ∷ ds) a = err (diagnostics (d ∷ ds))

-- What two stretches of a validation ask for together.
pub append_iff {ℓ κ μ} :
    {A : Type ℓ} {P : Type κ} {Q : Type μ} (xs ys : List A)
    → ((xs ≡ []) ↔ P)
    → ((ys ≡ []) ↔ Q)
    → (xs ++ ys ≡ []) ↔ (P × Q)
append_iff xs ys p q =
    let both = append-eq-nil xs ys in
    ((λ h. (p.0 (both.0 h).0, q.0 (both.0 h).1)), (λ k. both.1 (p.1 k.0, q.1 k.1)))

pub report_iff {κ} :
    {P : Type κ} (b : Bool) (d : PackageDiagnostic) → ((b ≡ false) ↔ P) → (report_if b d ≡ []) ↔ P
report_iff b d p =
    ((λ h. p.0 ((report_if-eq-nil b d).0 h)), (λ k. (report_if-eq-nil b d).1 (p.1 k)))

-- A loop that reports on each element asks for each.
pub concat_map_iff {ℓ} :
    {A : Type ℓ} {P : A → Type 0} (f : A → List PackageDiagnostic) (xs : List A)
    → ((x : A) → (f x ≡ []) ↔ P x)
    → (concat_map f xs ≡ []) ↔ All P xs
concat_map_iff f [] h = ((λ _. tt), (λ _. refl))
concat_map_iff f (x ∷ xs) h = append_iff (f x) (concat_map f xs) (h x) (concat_map_iff f xs h)

pub iff_trans {ℓ κ μ} : {P : Type ℓ} {Q : Type κ} {R : Type μ} → P ↔ Q → Q ↔ R → P ↔ R
iff_trans p q = ((λ h. q.0 (p.0 h)), (λ k. p.1 (q.1 k)))

pub ok_unless_iff :
    {A : Type 0} (ds : List PackageDiagnostic) (a : A) → (ok_unless ds a ≡ ok a) ↔ (ds ≡ [])
ok_unless_iff [] a = ((λ _. refl), (λ _. refl))
ok_unless_iff (d ∷ ds) a = ((λ h. absurd (cc)), (λ k. absurd (cc)))
