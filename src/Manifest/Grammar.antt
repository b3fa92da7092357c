-- ===== src/Manifest/Grammar.antt =====
-- What the recognisers of names, repositories and checksums accept, written as grammars.
use etas.Base.{ℕ, ◌≤◌, Text, codes, List, [], ◌∷◌, ◌++◌, ◌≡◌, ◌≢◌, ◌↔◌, ◌⊎◌, refl, arith}
use etas.Base.{
  Bool, true, false, not, ◌&&◌, ◌||◌, All, all, length, is_empty, contains, split, join,
}
use etas.Base.{split_once, split_once-append, split_once_sound, strip_prefix, strip_prefix-eq-some}
use etas.Base.{Option, none, some, and-eq-true, sym, ◌==◌, ==_iff}
use etas.Base.Split.{join-split, split-join, split-ne-nil}
use etas.Manifest.Names.{
  is_ascii_alphabetic, is_ascii_alphanumeric, is_identifier, is_valid_import_root,
  is_github_name_char,
}
use etas.Manifest.Names.{is_valid_github_repo, is_lower_hex, is_blake3_checksum}

abbrev pub IsLetter : ℕ → Type 0
IsLetter c = ((b'a' ≤ c) × (c ≤ b'z')) ⊎ ((b'A' ≤ c) × (c ≤ b'Z'))

abbrev pub IsDigit : ℕ → Type 0
IsDigit c = (b'0' ≤ c) × (c ≤ b'9')

-- A letter or `_`, then letters, digits and `_`.
abbrev pub IsIdentifier : Text → Type 0
IsIdentifier [] = ⊥
IsIdentifier (c ∷ cs) =
    (IsLetter c ⊎ (c ≡ b'_')) × All (λ x. IsLetter x ⊎ IsDigit x ⊎ (x ≡ b'_')) cs

abbrev pub IsNameChar : ℕ → Type 0
IsNameChar c = IsLetter c ⊎ IsDigit c ⊎ (c ≡ b'-') ⊎ (c ≡ b'_') ⊎ (c ≡ b'.')

abbrev pub IsLowerHex : ℕ → Type 0
IsLowerHex c = IsDigit c ⊎ ((b'a' ≤ c) × (c ≤ b'f'))

pub all_iff :
    (p : ℕ → Bool) (P : ℕ → Type 0)
    → ((c : ℕ) → (p c ≡ true) ↔ P c)
    → (t : Text) → (all p t ≡ true) ↔ All P t
all_iff p P h [] = ((λ _. tt), (λ _. refl))
all_iff p P h (c ∷ cs) =
    let ih = all_iff p P h cs in
    let both = and-eq-true (p c) (all p cs) in
    ((λ e. ((h c).0 (both.0 e).0, ih.0 (both.0 e).1)), (λ k. both.1 ((h c).1 k.0, ih.1 k.1)))

word_char_iff :
    (x : ℕ)
    → ((x == b'_' || is_ascii_alphanumeric x) ≡ true) ↔ (IsLetter x ⊎ IsDigit x ⊎ (x ≡ b'_'))
word_char_iff x = ground arith

first_char_iff : (x : ℕ) → ((x == b'_' || is_ascii_alphabetic x) ≡ true) ↔ (IsLetter x ⊎ (x ≡ b'_'))
first_char_iff x = ground arith

is_identifier_iff : (t : Text) → (is_identifier t ≡ true) ↔ IsIdentifier t
unfolding is_identifier
is_identifier_iff [] = ground arith
is_identifier_iff (c ∷ cs) =
    let rest = all_iff _ _ word_char_iff cs in
    let first = first_char_iff c in
    let both = and-eq-true _ _ in
    ((λ e. (first.0 (both.0 e).0, rest.0 (both.0 e).1)), (λ k. both.1 (first.1 k.0, rest.1 k.1)))

identifier_no_dot : (t : Text) → IsIdentifier t → contains t b'.' ≡ false
identifier_no_dot [] h = elim h [ ]
identifier_no_dot (c ∷ cs) h = ground (arith, words_no_dot cs h.1)
  where
    words_no_dot :
        (cs : Text) → All (λ x. IsLetter x ⊎ IsDigit x ⊎ (x ≡ b'_')) cs → contains cs b'.' ≡ false
    words_no_dot [] h = refl
    words_no_dot (c ∷ cs) h = ground (arith, words_no_dot cs h.1)

All-map : (P Q : Text → Type 0) → ((t : Text) → P t → Q t) → (ts : List Text) → All P ts → All Q ts
All-map P Q f [] h = tt
All-map P Q f (t ∷ ts) h = (f t h.0, All-map P Q f ts h.1)

all_identifiers_iff : (ts : List Text) → (all is_identifier ts ≡ true) ↔ All IsIdentifier ts
all_identifiers_iff [] = ((λ _. tt), (λ _. refl))
all_identifiers_iff (t ∷ ts) =
    let ih = all_identifiers_iff ts in
    let both = and-eq-true (is_identifier t) (all is_identifier ts) in
    let first = is_identifier_iff t in
    ((λ e. (first.0 (both.0 e).0, ih.0 (both.0 e).1)), (λ k. both.1 (first.1 k.0, ih.1 k.1)))

-- A path of identifiers, joined by dots.
abbrev pub IsDottedPath : Text → Type 0
IsDottedPath t =
    (s : Text) × (ss : List Text) × All IsIdentifier (s ∷ ss) × (t ≡ join (b'.' ∷ []) (s ∷ ss))

identifiers_not_empty :
    (t : Text) → all is_identifier (split b'.' t) ≡ true → not (is_empty t) ≡ true
unfolding split is_identifier
identifiers_not_empty [] h = cc
identifiers_not_empty (c ∷ cs) h = refl

dotted_pieces :
    (t : Text) (pieces : List Text)
    → join (b'.' ∷ []) pieces ≡ t
    → pieces ≢ []
    → all is_identifier pieces ≡ true
    → IsDottedPath t
dotted_pieces t [] e h k = absurd (h refl)
dotted_pieces t (s ∷ ss) e h k = (s, ss, (all_identifiers_iff (s ∷ ss)).0 k, sym e)

-- An import root is accepted exactly when it is a path of identifiers joined by dots.
pub is_valid_import_root_iff : (t : Text) → (is_valid_import_root t ≡ true) ↔ IsDottedPath t
unfolding is_valid_import_root
is_valid_import_root_iff t = (sound, complete)
  where
    sound : is_valid_import_root t ≡ true → IsDottedPath t
    sound e =
        dotted_pieces t (split b'.' t) (join-split b'.' t) (split-ne-nil b'.' t)
          ((and-eq-true (not (is_empty t)) (all is_identifier (split b'.' t))).0 e).1

    complete : IsDottedPath t → is_valid_import_root t ≡ true
    complete (s, ss, names, e) =
        let pieces : split b'.' t ≡ s ∷ ss =
          rw e (split-join b'.' s ss (All-map _ _ identifier_no_dot (s ∷ ss) names)) in
        let good : all is_identifier (split b'.' t) ≡ true =
          rw pieces ((all_identifiers_iff (s ∷ ss)).1 names) in
        (and-eq-true (not (is_empty t)) (all is_identifier (split b'.' t))).1
          (identifiers_not_empty t good, good)

github_char_iff : (c : ℕ) → (is_github_name_char c ≡ true) ↔ IsNameChar c
unfolding is_github_name_char
github_char_iff c = ground arith

abbrev pub IsRepoName : Text → Type 0
IsRepoName t = (t ≢ []) × All IsNameChar t

-- `owner/repo`, both made of one name character at least.
abbrev pub IsGithubRepo : Text → Type 0
IsGithubRepo t =
    (owner : Text) × (repo : Text) × IsRepoName owner × IsRepoName repo × (t ≡ owner ++ b'/' ∷ repo)

name_no_slash : (t : Text) → All IsNameChar t → contains t b'/' ≡ false
name_no_slash [] h = refl
name_no_slash (c ∷ cs) h = ground (arith, name_no_slash cs h.1)

not_empty_iff : (t : Text) → (not (is_empty t) ≡ true) ↔ (t ≢ [])
not_empty_iff [] = ground arith
not_empty_iff (c ∷ cs) = ground arith

abbrev accepts_pair : Text → Text → Bool
accepts_pair owner repo =
    not (is_empty owner)
    && not (is_empty repo)
    && not (contains repo b'/')
    && all is_github_name_char owner
    && all is_github_name_char repo

accepts_pair_sound :
    (owner repo : Text) → accepts_pair owner repo ≡ true → IsRepoName owner × IsRepoName repo
accepts_pair_sound owner repo h = (
  ((not_empty_iff owner).0 (ground arith), (all_iff _ _ github_char_iff owner).0 (ground arith)),
  ((not_empty_iff repo).0 (ground arith), (all_iff _ _ github_char_iff repo).0 (ground arith)),
)

accepts_pair_complete :
    (owner repo : Text) → IsRepoName owner → IsRepoName repo → accepts_pair owner repo ≡ true
accepts_pair_complete owner repo o r = ground (
  arith,
  (not_empty_iff owner).1 o.0,
  (not_empty_iff repo).1 r.0,
  name_no_slash repo r.1,
  (all_iff _ _ github_char_iff owner).1 o.1,
  (all_iff _ _ github_char_iff repo).1 r.1,
)

accepted_split :
    (t : Text) (o : Option (Text × Text))
    → split_once b'/' t ≡ o
    → is_valid_github_repo t ≡ true
    → IsGithubRepo t
unfolding is_valid_github_repo
accepted_split t none e h = absurd (cc)
accepted_split t (some (owner, repo)) e h =
    let names = accepts_pair_sound owner repo (ground arith) in
    (owner, repo, names.0, names.1, (split_once_sound b'/' t owner repo e).0)

-- A GitHub source is accepted exactly when it is `owner/repo` over letters, digits, `-`, `_` and `.`.
pub is_valid_github_repo_iff : (t : Text) → (is_valid_github_repo t ≡ true) ↔ IsGithubRepo t
unfolding is_valid_github_repo
is_valid_github_repo_iff t = (accepted_split t (split_once b'/' t) refl, complete)
  where
    complete : IsGithubRepo t → is_valid_github_repo t ≡ true
    complete (owner, repo, o, r, e) =
        let cut : split_once b'/' t ≡ some (owner, repo) =
          rw e (split_once-append b'/' owner repo (name_no_slash owner o.1)) in
        rw (cut, is_valid_github_repo) (accepts_pair_complete owner repo o r)

hex_iff : (c : ℕ) → (is_lower_hex c ≡ true) ↔ IsLowerHex c
hex_iff c = ground arith

-- `blake3:` and 64 lower-case hexadecimal digits.
abbrev pub IsBlake3 : Text → Type 0
IsBlake3 t = (hex : Text) × (length hex ≡ 64) × All IsLowerHex hex × (t ≡ codes "blake3:" ++ hex)

accepted_hex :
    (t : Text) (o : Option Text)
    → strip_prefix (codes "blake3:") t ≡ o
    → is_blake3_checksum t ≡ true
    → IsBlake3 t
unfolding is_blake3_checksum
accepted_hex t none e h = absurd (cc)
accepted_hex t (some hex) e h = (
  hex,
  ground arith,
  (all_iff _ _ hex_iff hex).0 (ground arith),
  (strip_prefix-eq-some (codes "blake3:") t hex).0 e,
)

-- A checksum is accepted exactly when it is `blake3:` and 64 lower-case hexadecimal digits.
pub is_blake3_checksum_iff : (t : Text) → (is_blake3_checksum t ≡ true) ↔ IsBlake3 t
unfolding is_blake3_checksum
is_blake3_checksum_iff t = (accepted_hex t (strip_prefix (codes "blake3:") t) refl, complete)
  where
    complete : IsBlake3 t → is_blake3_checksum t ≡ true
    complete (hex, n, h, e) =
        let cut : strip_prefix (codes "blake3:") t ≡ some hex =
          (strip_prefix-eq-some (codes "blake3:") t hex).1 e in
        rw (cut, is_blake3_checksum)
          ((and-eq-true (length hex == 64) (all is_lower_hex hex)).1
            ((==_iff (length hex) 64).1 n, (all_iff _ _ hex_iff hex).1 h))
