-- ===== src/Server/Discover/Found.antt =====
-- What a discovery finds or makes.
use tinkerbell.Base.{String, true, Option, List, ◌≡◌, ◌⊎◌, inl, inr, refl, arith}
use tinkerbell.Base.Equality.{string_eq}
use tinkerbell.Base.Fallible.{Result, ok, err}
use tinkerbell.Api.{Hardware}
use tinkerbell.Server.{
  ErrorKind, missing, multiple, already_exists, unexpected, BackendError, Stop, Backend, Attributes,
  AutoCapabilities,
}
use tinkerbell.Server.Names.Chars.{Char, chars, text}
use tinkerbell.Server.Names.{make_valid_chars, make_valid_name, named_text}
use tinkerbell.Server.Names.Valid.{IsName, make_valid_chars-IsName}
use tinkerbell.Server.Discover.{
  discovery_prefix, described, created, create, not_there, looked_for, discover_named, discover,
}
use tinkerbell.Server.Discover.Described.{IsDescribed, described-IsDescribed}

module _ {S : Type 0} (b : Backend S) (auto : AutoCapabilities) (agent : String)
    (attrs : Option Attributes) where
  -- A discovery that made its object: there was no hardware of the agent, the object was written once
  -- as it is described, and the answer differs from it in the flag of the enrollment alone, which is
  -- set in the answer.
  pub record IsCreated (s : S) (hw : Hardware) (s' : S) : Type 0 where
    pub made : Hardware
    pub name_chars : List Char
    pub before : S
    pub error : BackendError
    pub looked_up : b.filter_hardware agent "" s ≡ (err error, before)
    pub not_there_before : error.kind ≡ missing
    pub name_IsName : IsName name_chars
    pub made_IsDescribed : IsDescribed b.is_mac auto agent attrs (text name_chars) made
    pub written : b.create_hardware made before ≡ (ok tt, s')
    pub answer : hw ≡ record made { enrollment_enabled = true }

  unfoldable pub FoundOrCreated : S → Hardware → S → Type 0
  FoundOrCreated s hw s' = (b.filter_hardware agent "" s ≡ (ok hw, s')) ⊎ IsCreated s hw s'

  create-ok :
      (r : Result Stop Hardware) (s : S) (hw : Hardware) (s' : S)
      → create b auto agent attrs r s ≡ (ok hw, s')
      → (made : Hardware) × (r ≡ ok made)
        × (b.create_hardware made s ≡ (ok tt, s'))
        × (hw ≡ record made { enrollment_enabled = true })
  unfolding create created
  create-ok (err e) s hw s' h = absurd (ground (arith, h))
  create-ok (ok made) s hw s' h = (made, refl, ground (arith, h), ground (arith, h))

  looked_for-FoundOrCreated :
      (cs : List Char)
      → IsName cs
      → (s : S) (found : Result BackendError Hardware × S) → b.filter_hardware agent "" s ≡ found
      → (hw : Hardware) (s' : S) → looked_for b auto agent attrs (text cs) found ≡ (ok hw, s')
      → FoundOrCreated s hw s'
  unfolding looked_for not_there FoundOrCreated
  looked_for-FoundOrCreated cs n s (ok there, s₁) f hw s' h = inl (ground (arith, f, h))
  looked_for-FoundOrCreated cs n s (err e, s₁) f hw s' h = kinds e.kind refl h
    where
      kinds :
          (k : ErrorKind)
          → e.kind ≡ k
          → not_there b auto agent attrs (text cs) k e s₁ ≡ (ok hw, s')
          → FoundOrCreated s hw s'
      kinds multiple q j = absurd (ground (arith, j))
      kinds already_exists q j = absurd (ground (arith, j))
      kinds unexpected q j = absurd (ground (arith, j))
      kinds missing q j =
          let (made, described_is, wrote, answered) =
            create-ok (described b auto agent attrs (text cs)) s₁ hw s' j in
          inr (record {
            made = made;
            name_chars = cs;
            before = s₁;
            error = e;
            looked_up = f;
            not_there_before = q;
            name_IsName = n;
            made_IsDescribed = described-IsDescribed b auto agent attrs (text cs) made described_is;
            written = wrote;
            answer = answered;
          })

  -- `Discover`, when it ends with a hardware: it is the one that the cluster has of the agent, and
  -- nothing was written; or the cluster had none, and one was created: under a valid name, of the agent,
  -- in the namespace of the discovery, marked as discovered, with the configured flag of the
  -- enrollment, one disk for each block device with a size and one interface for each valid MAC
  -- address; the answer is that object with the flag set.
  pub discover-FoundOrCreated :
      (s : S) (hw : Hardware) (s' : S)
      → discover b auto agent attrs s ≡ (ok hw, s')
      → FoundOrCreated s hw s'
  unfolding discover discover_named make_valid_name named_text
  discover-FoundOrCreated s hw s' h =
      named (make_valid_chars (chars agent) (chars discovery_prefix)) refl h
    where
      named :
          (r : Result String (List Char))
          → make_valid_chars (chars agent) (chars discovery_prefix) ≡ r
          → discover_named b auto agent attrs (named_text r) s ≡ (ok hw, s')
          → FoundOrCreated s hw s'
      named (err e) q k = absurd (ground (arith, k))
      named (ok cs) q k =
          looked_for-FoundOrCreated cs
            (make_valid_chars-IsName (chars agent) (chars discovery_prefix) cs q) s
            (b.filter_hardware agent "" s) refl hw s' k
