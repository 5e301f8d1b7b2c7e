-- ===== src/ApiKeys.antt =====
-- coppermind/api_keys.py: the form of a credential, and the record and the credential of a new key.
mod Credentials
mod Examples
use coppermind.Base.{
  ℕ, zero, suc, ◌+◌, ◌≡◌, Bool, true, false, not, ◌&&◌, ◌||◌, Option, none, some, List, [], ◌∷◌,
  ◌++◌, length, any, leb, ◌==◌, if◌then◌else◌,
}
use coppermind.Base.Texts.{Text, codes, eqb, is_empty, starts_with}

-- API_SCOPES
abbrev pub api_scopes : List Text
api_scopes =
    codes "entities:read"
    ∷ codes "entities:write"
    ∷ codes "sources:read"
    ∷ codes "sources:write"
    ∷ codes "notes:read"
    ∷ codes "notes:write"
    ∷ codes "notes:move"
    ∷ codes "notes:delete"
    ∷ codes "artifacts:read"
    ∷ codes "artifacts:write"
    ∷ codes "journal:read"
    ∷ codes "journal:write"
    ∷ codes "search:read"
    ∷ codes "admin:read"
    ∷ codes "admin:write"
    ∷ codes "admin:purge"
    ∷ []

-- KEY_PREFIX
abbrev pub key_prefix : Text
key_prefix = b'c' ∷ b'm' ∷ b'_' ∷ []

abbrev pub is_id_char : ℕ → Bool
is_id_char c = leb b'a' c && leb c b'z' || leb b'0' c && leb c b'9'

abbrev pub all_id_chars : Text → Bool
all_id_chars [] = true
all_id_chars (c ∷ s) = is_id_char c && all_id_chars s

-- KEY_ID_PATTERN.fullmatch
unfoldable pub is_key_id : Text → Bool
is_key_id s = length s == 16 && all_id_chars s

-- credential.split("_", n), `part` being what has been read of the current part
unfoldable pub split_from : ℕ → Text → Text → List Text
split_from n part [] = part ∷ []
split_from zero part (c ∷ s) = (part ++ c ∷ s) ∷ []
split_from (suc n) part (c ∷ s) =
    let closed = part ∷ split_from n [] s in
    let longer = split_from (suc n) (part ++ c ∷ []) s in if c == b'_' then closed else longer

-- The parts of a credential that has the public form.
unfoldable pub id_and_secret : List Text → Option (Text × Text)
unfolding is_key_id
id_and_secret (prefix ∷ key_id ∷ secret ∷ []) =
    if not (is_key_id key_id) || is_empty secret then none else some (key_id, secret)
id_and_secret parts = none

unfoldable pub split_credential : Text → Option (Text × Text)
unfolding starts_with split_from id_and_secret
split_credential credential =
    if not (starts_with key_prefix credential)
    then none
    else id_and_secret (split_from 2 [] credential)

-- f"{KEY_PREFIX}{key_id}_{secret}", the credential that `create_key` shows once
abbrev pub credential_of : Text → Text → Text
credential_of key_id secret = key_prefix ++ (key_id ++ b'_' ∷ secret)

-- `value in values`
abbrev pub listed : Text → List Text → Bool
listed value values = any (eqb value) values

-- The two tests of `validate_scopes`.
unfoldable pub scopes_known : List Text → Bool
scopes_known [] = true
scopes_known (scope ∷ scopes) = listed scope api_scopes && scopes_known scopes

unfoldable pub scopes_distinct : List Text → Bool
scopes_distinct [] = true
scopes_distinct (scope ∷ scopes) = not (listed scope scopes) && scopes_distinct scopes

-- The library argon2: the hash of a secret, made with a salt, and the check of a secret against a
-- hash, which is false for a hash that is malformed.
pub record Hasher : Type 1 where
  pub Salt : Type 0
  pub hash : Salt → Text → Text
  pub verify : Text → Text → Bool

module _ (h : Hasher) where
  -- ApiKeyRecord. A time is its number of microseconds.
  pub record ApiKeyRecord : Type 0 where
    pub key_id : Text
    pub name : Text
    pub hash : Text
    pub scopes : List Text
    pub created_at : ℕ
    pub revoked_at : Option ℕ
    pub bootstrap_default : Bool

  -- The validators of ApiKeyRecord; a record that fails one is not made.
  unfoldable pub is_valid : ApiKeyRecord → Bool
  unfolding is_key_id scopes_known scopes_distinct
  is_valid r =
      is_key_id r.key_id
      && not (is_empty r.name)
      && scopes_known r.scopes
      && scopes_distinct r.scopes

  -- `create_key`, given the id and the secret that it uses; `none` is the ValueError of a record that
  -- is not valid.
  unfoldable pub create_key :
      Hasher.Salt h → Text → List Text → Text → Text → ℕ → Bool → Option (ApiKeyRecord × Text)
  unfolding is_valid
  create_key salt name scopes key_id secret created_at bootstrap_default =
      let made : ApiKeyRecord = record {
        key_id = key_id;
        name = name;
        hash = Hasher.hash h salt secret;
        scopes = scopes;
        created_at = created_at;
        revoked_at = none;
        bootstrap_default = bootstrap_default;
      } in
      if is_valid made then some (made, credential_of key_id secret) else none

  -- `verify_secret`
  abbrev pub verify_secret : Text → Text → Bool
  verify_secret encoded_hash secret = Hasher.verify h encoded_hash secret
