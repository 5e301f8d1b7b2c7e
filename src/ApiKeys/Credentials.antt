-- ===== src/ApiKeys/Credentials.antt =====
-- Which credentials `split_credential` of coppermind/api_keys.py takes apart, and what `create_key`
-- makes.
use coppermind.Base.{
  ℕ, zero, suc, ◌≡◌, ◌↔◌, refl, sym, ap, ◌∙◌, inl, inr, Bool, true, false, none, some, List, [],
  ◌∷◌, ◌++◌, ◌==◌, Bool-cases, append_assoc, append-nil, arith,
}
use coppermind.Base.Texts.{Text, is_empty, starts_with}
use coppermind.ApiKeys.{
  key_prefix, all_id_chars, is_key_id, split_from, id_and_secret, split_credential, credential_of,
  Hasher, ApiKeyRecord, is_valid, create_key, verify_secret,
}

-- "_".join(parts)
join : List Text → Text
join [] = []
join (part ∷ []) = part
join (part ∷ next ∷ parts) = part ++ b'_' ∷ join (next ∷ parts)

-- Splitting at an underscore in the text where the part before it holds none.
split_from-id :
    (part id rest : Text) (n : ℕ)
    → all_id_chars id ≡ true
    → split_from (suc n) part (id ++ b'_' ∷ rest) ≡ (part ++ id) ∷ split_from n [] rest
unfolding split_from
split_from-id part [] rest n h = rw (append-nil part) refl
split_from-id part (c ∷ id) rest n h =
    let differs : (c == b'_') ≡ false = ground arith in
    rw
      (
        differs,
        split_from-id (part ++ c ∷ []) id rest n (ground arith),
        append_assoc part (c ∷ []) id,
      )
      refl

split_from_cons :
    (n : ℕ) (part s : Text) → (x : Text) × (xs : List Text) × (split_from n part s ≡ x ∷ xs)
unfolding split_from
split_from_cons n part [] = (part, [], refl)
split_from_cons zero part (c ∷ s) = (part ++ c ∷ s, [], refl)
split_from_cons (suc n) part (c ∷ s) = elim (Bool-cases (c == b'_')) [
  | inl e ↦ rw e (part, split_from n [] s, refl)
  | inr e ↦ rw e (split_from_cons (suc n) (part ++ c ∷ []) s)
]

join_cons :
    (part : Text) (parts : List Text)
    → ((x : Text) × (xs : List Text) × (parts ≡ x ∷ xs))
    → join (part ∷ parts) ≡ part ++ b'_' ∷ join parts
unfolding join
join_cons part parts (x, xs, e) = rw e refl

join-split_from : (n : ℕ) (part s : Text) → join (split_from n part s) ≡ part ++ s
unfolding split_from join
join-split_from n part [] = sym (append-nil part)
join-split_from zero part (c ∷ s) = refl
join-split_from (suc n) part (c ∷ s) = elim (Bool-cases (c == b'_')) [
  | inl e ↦
      let same : c ≡ b'_' = ground arith in
      rw e (
        join_cons part (split_from n [] s) (split_from_cons n [] s)
        ∙ rw (join-split_from n [] s, same) refl)
  | inr e ↦ rw e (join-split_from (suc n) (part ++ c ∷ []) s ∙ append_assoc part (c ∷ []) s)
]

-- The two parts behind the prefix.
id_and_secret_sound :
    (prefix : Text) (parts : List Text) (key_id secret : Text)
    → id_and_secret (prefix ∷ parts) ≡ some (key_id, secret)
    → (parts ≡ key_id ∷ secret ∷ []) × (is_key_id key_id ≡ true) × (is_empty secret ≡ false)
unfolding id_and_secret
id_and_secret_sound prefix [] key_id secret h = cc
id_and_secret_sound prefix (k ∷ []) key_id secret h = cc
id_and_secret_sound prefix (k ∷ s ∷ []) key_id secret h = ground arith
id_and_secret_sound prefix (k ∷ s ∷ t ∷ parts) key_id secret h = cc

behind_prefix :
    (credential : Text)
    → starts_with key_prefix credential ≡ true
    → (rest : Text) × (credential ≡ key_prefix ++ rest)
unfolding starts_with
behind_prefix [] h = cc
behind_prefix (a ∷ []) h = ground arith
behind_prefix (a ∷ b ∷ []) h = ground arith
behind_prefix (a ∷ b ∷ d ∷ rest) h = (rest, ground arith)

split_credential_prefixed :
    (rest : Text)
    → split_credential (key_prefix ++ rest)
      ≡ id_and_secret ((b'c' ∷ b'm' ∷ []) ∷ split_from 1 [] rest)
unfolding split_credential split_from starts_with
split_credential_prefixed rest = refl

split_credential_refused :
    (credential : Text)
    → starts_with key_prefix credential ≡ false
    → split_credential credential ≡ none
unfolding split_credential
split_credential_refused credential e = rw e refl

taken_apart :
    (credential key_id secret : Text)
    → split_credential credential ≡ some (key_id, secret)
    → (credential ≡ credential_of key_id secret)
      × (is_key_id key_id ≡ true)
      × (is_empty secret ≡ false)
taken_apart credential key_id secret h = elim (Bool-cases (starts_with key_prefix credential)) [
  | inr e ↦ cc (split_credential_refused credential e, h)
  | inl e ↦
      let (rest, whole) = behind_prefix credential e in
      let (parts, valid, filled) =
        id_and_secret_sound (b'c' ∷ b'm' ∷ []) (split_from 1 [] rest) key_id secret
          (sym (split_credential_prefixed rest) ∙ rw whole at h) in
      let text : rest ≡ key_id ++ b'_' ∷ secret =
        sym (join-split_from 1 [] rest) ∙ unfold join in rw parts refl in
      (whole ∙ ap (λ r. key_prefix ++ r) text, valid, filled)
]

split_credential-credential_of :
    (key_id secret : Text)
    → is_key_id key_id ≡ true
    → is_empty secret ≡ false
    → split_credential (credential_of key_id secret) ≡ some (key_id, secret)
unfolding split_from
split_credential-credential_of key_id [] valid filled = cc
split_credential-credential_of key_id (c ∷ secret) valid filled =
    let chars : all_id_chars key_id ≡ true = unfold is_key_id in ground arith in
    split_credential_prefixed (key_id ++ b'_' ∷ c ∷ secret)
    ∙ rw (split_from-id [] key_id (c ∷ secret) 0 chars) (unfold id_and_secret in rw valid refl)

-- A credential is taken apart exactly if it is the prefix, a key id, an underscore and a secret that
-- is not empty, and it is taken apart into that id and that secret. The secret may hold underscores.
pub split_credential_iff :
    (credential key_id secret : Text)
    → (split_credential credential ≡ some (key_id, secret)) ↔ (
        (credential ≡ credential_of key_id secret)
        × (is_key_id key_id ≡ true)
        × (is_empty secret ≡ false))
split_credential_iff credential key_id secret = (
  taken_apart credential key_id secret,
  λ (whole, valid, filled).
      ap split_credential whole ∙ split_credential-credential_of key_id secret valid filled,
)

module _ (h : Hasher) where
  create_key-ok :
      (salt : Hasher.Salt h) (name : Text) (scopes : List Text) (key_id secret : Text)
      (created_at : ℕ) (default : Bool) (r : ApiKeyRecord h) (credential : Text)
      → create_key h salt name scopes key_id secret created_at default ≡ some (r, credential)
      → (is_key_id key_id ≡ true)
        × (r.key_id ≡ key_id)
        × (credential ≡ credential_of key_id secret)
        × (r.hash ≡ Hasher.hash h salt secret)
        × (r.revoked_at ≡ none)
  unfolding create_key is_valid
  create_key-ok salt name scopes key_id secret created_at default r credential e = ground arith

  -- Where argon2 accepts the secret that a hash was made from, whatever the salt: the credential that
  -- `create_key` shows is taken apart into the id of the record that it makes and the secret; that
  -- secret is verified against the record's hash; and the record is not revoked.
  pub split_credential-create_key :
      ((salt : Hasher.Salt h) (s : Text) → verify_secret h (Hasher.hash h salt s) s ≡ true)
      → (salt : Hasher.Salt h) (name : Text) (scopes : List Text) (key_id secret : Text)
        (created_at : ℕ) (default : Bool) (r : ApiKeyRecord h) (credential : Text)
      → is_empty secret ≡ false
      → create_key h salt name scopes key_id secret created_at default ≡ some (r, credential)
      → (split_credential credential ≡ some (r.key_id, secret))
        × (verify_secret h r.hash secret ≡ true)
        × (r.revoked_at ≡ none)
  split_credential-create_key accepts salt name scopes key_id secret created_at default r credential
        s e =
      let (valid, id, shown, hashed, fresh) =
        create_key-ok salt name scopes key_id secret created_at default r credential e in
      (
        ap split_credential shown
            ∙ split_credential-credential_of key_id secret valid s
            ∙ ap (λ k. some (k, secret)) (sym id),
        ap (λ x. verify_secret h x secret) hashed ∙ accepts salt secret,
        fresh,
      )
