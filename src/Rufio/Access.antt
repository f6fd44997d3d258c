-- ===== src/Rufio/Access.antt =====
-- How a BMC is reached (rufio/internal/controller/kube.go, and `retrieveHMACSecrets` of machine.go), and
-- what its answer about its power means.
use Prim.Native.Char.{code}
use Prim.Native.String.{◌++◌ as text_append}
use Prim.Native.String as Native
use tinkerbell.Base.{
  ℕ, String, Bool, true, false, Option, none, some, List, [], ◌∷◌, ◌++◌, if◌then◌else◌, leb, eqb,
  ◌+◌, ◌||◌, ◌&&◌,
}
use tinkerbell.Base.Dict.{Dict, lookup, insert}
use tinkerbell.Base.Equality.{string_eq}
use tinkerbell.Base.Fallible.{Result, ok, err, Exec, pure, lift, map_err, ◌>>=◌}
use tinkerbell.Rufio.{Connection, Halt, ReadError, Client}

pub data PowerState : Type 0 where
  on off unknown : PowerState

-- `strings.ToLower`, as the numbers of the characters, for the letters A to Z.
abbrev lower : ℕ → ℕ
lower n = if leb 65 n && leb n 90 then n + 32 else n

abbrev lower_codes : String → List ℕ
lower_codes Native.[] = []
lower_codes (Native.◌∷◌ x s) = lower (code x) ∷ lower_codes s

abbrev has_prefix : List ℕ → List ℕ → Bool
has_prefix [] xs = true
has_prefix (p ∷ ps) [] = false
has_prefix (p ∷ ps) (x ∷ xs) = eqb p x && has_prefix ps xs

abbrev contains : List ℕ → List ℕ → Bool
contains ps [] = has_prefix ps []
contains ps (x ∷ xs) = has_prefix ps (x ∷ xs) || contains ps xs

unfoldable pub to_power_state : String → PowerState
to_power_state raw =
    let s = lower_codes raw in
    if contains (lower_codes "on") s
    then PowerState.on
    else (if contains (lower_codes "off") s then PowerState.off else PowerState.unknown)

abbrev missing_entry : String → Option String → Result Halt String
missing_entry k none = err (Halt.failure (text_append k " required in Machine secret"))
missing_entry k (some x) = ok x

abbrev or_empty : Option String → String
or_empty none = ""
or_empty (some x) = x

abbrev values_of : Option (List String) → List String
values_of none = []
values_of (some xs) = xs

-- `sec[k] = append(sec[k], x)`
abbrev push_secret : String → String → Dict String (List String) → Dict String (List String)
push_secret k x sec = insert k (values_of (lookup k sec) ++ (x ∷ [])) sec

abbrev in_place : String → Halt → Halt
in_place place (Halt.failure e) = Halt.failure (text_append place e)
in_place place Halt.panicked = Halt.panicked

module _ {S : Type 0} (c : Client S) where
  -- `resolveAuthSecretRef`
  unfoldable pub resolve_auth_secret_ref : String × String → Exec S Halt (String × String)
  resolve_auth_secret_ref ref = do
    secret ←
        map_err
          (λ (e : ReadError). Halt.failure (
            if e.is_not_found
            then text_append "secret not found: " e.text
            else text_append "failed to retrieve secret: " e.text))
          (c.secret_data ref)
    username ← lift (missing_entry "username" (lookup "username" secret))
    password ← lift (missing_entry "password" (lookup "password" secret))
    pure (username, password)

  -- `retrieveHMACSecrets`, the loops over the algorithms and over the secrets of one.
  unfoldable pub read_secrets :
      String
      → List (String × String)
      → Dict String (List String)
      → Exec S Halt (Dict String (List String))
  read_secrets algorithm [] sec = pure sec
  read_secrets algorithm (ref ∷ refs) sec = do
    secret ←
        map_err
          (λ (e : ReadError). Halt.failure (
            text_append "unable to get hmac secrets: " (
              if e.is_not_found
              then text_append "secret not found: " e.text
              else text_append "failed to retrieve secret: " e.text)))
          (c.secret_data ref)
    read_secrets algorithm refs (push_secret algorithm (or_empty (lookup "secret" secret)) sec)

  unfoldable pub retrieve_hmac_secrets :
      Dict String (List (String × String))
      → Dict String (List String)
      → Exec S Halt (Dict String (List String))
  retrieve_hmac_secrets [] sec = pure sec
  retrieve_hmac_secrets ((algorithm, refs) ∷ more) sec = do
    sec' ← read_secrets algorithm refs sec
    retrieve_hmac_secrets more sec'

  -- The credentials and the secrets of the HMAC with which the BMC is opened; `place` begins the error
  -- of a secret that is not read.
  unfoldable pub credentials :
      String → Connection → Exec S Halt ((String × String) × Dict String (List String))
  credentials place k = elim k.rpc [
    | some refs ↦ (do secrets ← retrieve_hmac_secrets refs []; pure (("", ""), secrets))
    | none ↦ (do
      user ← map_err (in_place place) (resolve_auth_secret_ref k.auth_secret_ref)
      pure (user, []))
  ]
