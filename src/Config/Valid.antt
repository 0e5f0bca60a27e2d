-- ===== src/Config/Valid.antt =====
-- What a configuration that was loaded has, and where each of its fields is from.
use Prim.Native.Char.{Char, code}
use watchkeeper.Prelude.{
  ℕ, ◌+◌, ◌≤◌, ◌==◌, ◌⊎◌, ◌&&◌, String, true, false, List, [], ◌∷◌, ◌≡◌, ◌≢◌, ◌∙◌, refl, sym, ap,
  subst, arith, str_eq, below_one, Bool, Bool-cases, inl, inr, eq_iff, ℤ, pos, negsuc, ◌<◌,
  if◌then◌else◌, ◌||◌,
}
use watchkeeper.Domain.Types.{library_error, Result, ok, err}
use watchkeeper.Store.Ensures.{ok-injective}
use watchkeeper.Config.{
  Config, Flags, Environment, known_level, validate, valid_or_error, with_tokens, with_admin,
  with_auth, with_flags, token_from, default_flags, load, lowered, lowered_is, trim_space,
  read_secret,
}

-- A letter and the lower case of it: itself, or 32 further in ASCII, or i for U+0130.
abbrev LowerOf : Char → Char → Type 0
LowerOf c d =
    (code c ≡ code d)
    ⊎ ((65 ≤ code c) × (code c ≤ 90) × (code d ≡ code c + 32))
    ⊎ ((code c ≡ 304) × (code d ≡ 105))

pub data LowersTo : String → String → Type 0 where
  at_end : LowersTo "" ""
  letter :
      {c d : Char} {s t : String}
      → LowerOf c d
      → LowersTo s t
      → LowersTo (String.◌∷◌ c s) (String.◌∷◌ d t)

-- One of the four levels, in any case.
abbrev pub IsLevel : String → Type 0
IsLevel level =
    LowersTo level "debug" ⊎ LowersTo level "info" ⊎ LowersTo level "warn" ⊎ LowersTo level "error"

lowered-LowerOf : (c d : Char) → (lowered (code c) == code d) ≡ true → LowerOf c d
lowered-LowerOf c d h = ground (arith, h)

both : (a b : Bool) → (a && b) ≡ true → (a ≡ true) × (b ≡ true)
both true true h = (refl, refl)
both true false h = cc
both false b h = cc

lowered_is-LowersTo : (s t : String) → lowered_is s t ≡ true → LowersTo s t
lowered_is-LowersTo String.[] String.[] h = at_end
lowered_is-LowersTo String.[] (String.◌∷◌ d t) h = cc
lowered_is-LowersTo (String.◌∷◌ c s) String.[] h = cc
lowered_is-LowersTo (String.◌∷◌ c s) (String.◌∷◌ d t) h =
    let (first, rest) = both _ _ h in
    letter (lowered-LowerOf c d first) (lowered_is-LowersTo s t rest)

one_of_four :
    (a b c d : Bool) → (a || b || c || d) ≡ true → (a ≡ true) ⊎ (b ≡ true) ⊎ (c ≡ true) ⊎ (d ≡ true)
one_of_four a b c d h = ground (arith, h)

known_level-IsLevel : (level : String) → known_level level ≡ true → IsLevel level
known_level-IsLevel level h = elim (one_of_four _ _ _ _ h) [
  | inl a ↦ inl (lowered_is-LowersTo level "debug" a)
  | inr (inl b) ↦ inr (inl (lowered_is-LowersTo level "info" b))
  | inr (inr (inl c)) ↦ inr (inr (inl (lowered_is-LowersTo level "warn" c)))
  | inr (inr (inr d)) ↦ inr (inr (inr (lowered_is-LowersTo level "error" d)))
]

pub record Valid (c : Config) : Type 0 where
  pub database : c.database_url ≢ ""
  pub auth : c.auth_token ≢ ""
  pub admin : c.admin_token ≢ ""
  pub level : IsLevel c.log_level
  pub timeout : (n : ℕ) × (0 < n) × (c.shutdown_timeout ≡ pos n)

not_empty : (t : String) → str_eq t "" ≡ false → t ≢ ""
not_empty t h same = cc (h, (eq_iff t "").1 same)

positive : (z : ℤ) → below_one z ≡ false → (n : ℕ) × (0 < n) × (z ≡ pos n)
positive (pos n) h = (n, ground (arith, h), refl)
positive (negsuc n) h = cc

validate-Valid : (c : Config) → validate c ≡ [] → Valid c
unfolding validate
validate-Valid c h = record {
  database = not_empty _ (ground (arith, h));
  auth = not_empty _ (ground (arith, h));
  admin = not_empty _ (ground (arith, h));
  level = known_level-IsLevel _ (ground (arith, h));
  timeout = positive _ (ground (arith, h));
}

valid_or_error-Valid : (c d : Config) → valid_or_error c ≡ ok d → Valid d × (d ≡ c)
valid_or_error-Valid c d h = by_errors (validate c) (validate-Valid c) h
  where
    by_errors :
        (errors : List String)
        → (errors ≡ [] → Valid c)
        → elim errors [ [] ↦ ok c | m ∷ rest ↦ err (library_error m) ] ≡ ok d
        → Valid d × (d ≡ c)
    by_errors [] v h = subst (λ x. Valid x × (x ≡ c)) (ok-injective h) (v refl, refl)
    by_errors (m ∷ rest) v h = cc

-- A token that is given: the text of its file, where one is named, without the spaces around it, and
-- else the variable.
abbrev pub Given : Environment → String → String → String → Type 0
Given env file variable token =
    ((file ≡ "") × (token ≡ env.getenv variable))
    ⊎ ((file ≢ "")
        × ((text : String) × (env.read_file file ≡ ok text)
            × (token ≡ trim_space text)
            × (token ≢ "")))

secret_read :
    (env : Environment) (file secret : String)
    → read_secret env.read_file file ≡ ok secret
    → (text : String) × (env.read_file file ≡ ok text) × (secret ≡ trim_space text) × (secret ≢ "")
unfolding read_secret
secret_read env file secret h = by_text (env.read_file file) refl h
  where
    by_text :
        (r : Result String)
        → env.read_file file ≡ r
        → elim r as (λ x. Result String) [
          | err e ↦ err e
          | ok value ↦
              let secret = trim_space value in
              if str_eq secret "" then err (library_error "secret file is empty") else ok secret
        ]
          ≡ ok secret
        → (text : String) × (env.read_file file ≡ ok text)
          × (secret ≡ trim_space text)
          × (secret ≢ "")
    by_text (err e) same h = cc
    by_text (ok text) same h = elim (Bool-cases (str_eq (trim_space text) "")) [
      | inl empty ↦ elim (refused (rw empty at h)) [ ]
      | inr full ↦
          let equal = sym (ok-injective (rw full at h)) in
          (text, same, equal, subst (λ t. t ≢ "") (sym equal) (not_empty _ full))
    ]
      where
        refused : err (library_error "secret file is empty") ≡ ok secret → ⊥
        refused h = cc

token_from-Given :
    (env : Environment) (file variable action token : String)
    → token_from env.read_file file (env.getenv variable) action ≡ ok token
    → Given env file variable token
unfolding token_from
token_from-Given env file variable action token h = elim (Bool-cases (str_eq file "")) [
  | inl none_named ↦ inl ((eq_iff _ _).0 none_named, sym (ok-injective (rw none_named at h)))
  | inr named ↦ inr (
    not_empty _ named,
    secret_read env file token (read (read_secret env.read_file file) (rw named at h)),
  )
]
  where
    read :
        (r : Result String)
        → elim r as (λ x. Result String) [
          | err e ↦ err (library_error action)
          | ok secret ↦ ok secret
        ]
          ≡ ok token
        → r ≡ ok token
    read (err e) h = cc
    read (ok secret) h = h

-- The admin token is given, or the public one where neither a file nor the variable gives one.
abbrev pub AdminFrom : Environment → Flags → Config → Type 0
AdminFrom env f c =
    Given env f.admin_file "WK_ADMIN_TOKEN" c.admin_token
    ⊎ ((f.admin_file ≡ "") × (env.getenv "WK_ADMIN_TOKEN" ≡ "") × (c.admin_token ≡ c.auth_token))

pub record Loaded (env : Environment) (f : Flags) (c : Config) : Type 0 where
  pub valid : Valid c
  pub auth_from : Given env f.auth_file "WK_AUTH_TOKEN" c.auth_token
  pub admin_from : AdminFrom env f c
  pub http_addr : c.http_addr ≡ f.http_addr
  pub database_url : c.database_url ≡ f.database_url
  pub log_level : c.log_level ≡ f.log_level
  pub shutdown_timeout : c.shutdown_timeout ≡ f.shutdown_timeout

admin_fallback :
    (env : Environment) (f : Flags) (auth_token admin_token : String)
    → Given env f.admin_file "WK_ADMIN_TOKEN" admin_token
    → AdminFrom env f (with_tokens f auth_token admin_token)
unfolding with_tokens
admin_fallback env f auth_token admin_token given = elim (Bool-cases (str_eq admin_token "")) [
  | inr full ↦ rw full (inl given)
  | inl empty ↦ rw empty (inr (unnamed given ((eq_iff _ _).0 empty)))
]
  where
    unnamed :
        Given env f.admin_file "WK_ADMIN_TOKEN" admin_token
        → admin_token ≡ ""
        → (f.admin_file ≡ "") × (env.getenv "WK_ADMIN_TOKEN" ≡ "") × (auth_token ≡ auth_token)
    unnamed (inl (no_file, same)) none_given = (no_file, sym same ∙ none_given, refl)
    unnamed (inr (named, (text, is_read, same, full))) none_given = elim (full none_given) [ ]

with_admin-Loaded :
    (env : Environment) (f : Flags) (auth_token : String) (r : Result String) (c : Config)
    → Given env f.auth_file "WK_AUTH_TOKEN" auth_token
    → token_from env.read_file f.admin_file (env.getenv "WK_ADMIN_TOKEN") "read admin token" ≡ r
    → with_admin f auth_token r ≡ ok c
    → Loaded env f c
unfolding with_tokens
with_admin-Loaded env f auth_token (err e) c auth given h = cc
with_admin-Loaded env f auth_token (ok admin_token) c auth given h =
    let (valid, same) = valid_or_error-Valid (with_tokens f auth_token admin_token) c h in
    record {
      valid = valid;
      auth_from = subst (λ x. Given env f.auth_file "WK_AUTH_TOKEN" x.auth_token) (sym same) auth;
      admin_from = subst (AdminFrom env f) (sym same) (
          admin_fallback env f auth_token admin_token
            (token_from-Given env f.admin_file "WK_ADMIN_TOKEN" _ admin_token given));
      http_addr = ap (λ x. x.http_addr) same;
      database_url = ap (λ x. x.database_url) same;
      log_level = ap (λ x. x.log_level) same;
      shutdown_timeout = ap (λ x. x.shutdown_timeout) same;
    }

with_auth-Loaded :
    (env : Environment) (f : Flags) (r : Result String) (c : Config)
    → token_from env.read_file f.auth_file (env.getenv "WK_AUTH_TOKEN") "read auth token" ≡ r
    → with_auth env f r ≡ ok c
    → Loaded env f c
with_auth-Loaded env f (err e) c given h = cc
with_auth-Loaded env f (ok auth_token) c given h =
    with_admin-Loaded env f auth_token _ c
      (token_from-Given env f.auth_file "WK_AUTH_TOKEN" _ auth_token given) refl h

-- A configuration that is loaded has a database, two tokens that are not empty, one of the four log
-- levels in any case, and a positive timeout. Each token is the trimmed text of its file, where one is
-- named, and else its variable; where the admin token has neither, it is the public one. The other
-- fields are those of the flags.
pub load-Valid :
    (env : Environment) (arguments : List String) (f : Flags) (c : Config)
    → env.parse_flags (default_flags env.getenv) arguments ≡ ok f
    → load env arguments ≡ ok c
    → Loaded env f c
unfolding load
load-Valid env arguments f c parsed h =
    with_auth-Loaded env f _ c refl (subst (λ r. with_flags env r ≡ ok c) parsed h)
