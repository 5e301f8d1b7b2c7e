-- ===== src/ApiKeys/Examples.antt =====
-- The theorems on coppermind/api_keys.py at one key, with a hash that is the salt and the secret.
use coppermind.Base.{ℕ, ◌≡◌, ◌↔◌, refl, true, false, none, some, [], ◌∷◌}
use coppermind.Base.Texts.{Text, codes, eqb, eqb_refl, is_empty, starts_with}
use coppermind.ApiKeys.{
  is_key_id, split_from, id_and_secret, split_credential, credential_of, Hasher, ApiKeyRecord,
  is_valid, create_key, verify_secret, scopes_known, scopes_distinct,
}
use coppermind.ApiKeys.Credentials.{split_credential_iff, split_credential-create_key}

after_salt : Text → Text
after_salt [] = []
after_salt (c ∷ s) = s

abbrev hasher : Hasher
hasher = record {
  Salt = ℕ;
  hash = λ salt secret. salt ∷ secret;
  verify = λ encoded_hash secret. eqb (after_salt encoded_hash) secret;
}

hasher_accepts : (salt : ℕ) (s : Text) → verify_secret hasher (salt ∷ s) s ≡ true
unfolding after_salt
hasher_accepts salt s = eqb_refl s

abbrev key_id : Text
key_id = codes "0123456789abcdef"

-- A secret of token_urlsafe, which may hold an underscore.
abbrev secret : Text
secret = codes "a_b-C"

abbrev key : ApiKeyRecord hasher
key = record {
  key_id = key_id;
  name = codes "Laptop";
  hash = 7 ∷ secret;
  scopes = codes "notes:read" ∷ [];
  created_at = 100;
  revoked_at = none;
  bootstrap_default = false;
}

created :
    create_key hasher 7 (codes "Laptop") (codes "notes:read" ∷ []) key_id secret 100 false
    ≡ some (key, credential_of key_id secret)
unfolding create_key is_valid is_key_id scopes_known scopes_distinct
created = refl

split_credential-create_key_example :
    (split_credential (credential_of key_id secret) ≡ some (key_id, secret))
    × (verify_secret hasher key.hash secret ≡ true)
    × (key.revoked_at ≡ none)
split_credential-create_key_example =
    split_credential-create_key hasher hasher_accepts 7 (codes "Laptop") (codes "notes:read" ∷ [])
      key_id secret 100 false key (credential_of key_id secret) refl created

split_credential_iff_example :
    (split_credential (credential_of key_id secret) ≡ some (key_id, secret)) ↔ (
      (credential_of key_id secret ≡ credential_of key_id secret)
      × (is_key_id key_id ≡ true)
      × (is_empty secret ≡ false))
split_credential_iff_example = split_credential_iff (credential_of key_id secret) key_id secret

no_secret : split_credential (codes "cm_0123456789abcdef_") ≡ none
unfolding split_credential starts_with split_from id_and_secret is_key_id
no_secret = refl

short_id : split_credential (codes "cm_0123_secret") ≡ none
unfolding split_credential starts_with split_from id_and_secret is_key_id
short_id = refl

unknown_scope :
    create_key hasher 7 (codes "Laptop") (codes "notes:burn" ∷ []) key_id secret 100 false ≡ none
unfolding create_key is_valid is_key_id scopes_known
unknown_scope = refl
