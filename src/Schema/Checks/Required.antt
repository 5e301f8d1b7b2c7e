-- ===== src/Schema/Checks/Required.antt =====
-- The two accounts that coppermind/schema.py gives of a key that a note lacks: `required_keys` and the
-- problems of `validate_frontmatter`.
use coppermind.Base.{◌≡◌, Bool, true, false, not, List, [], ◌∷◌, any}
use coppermind.Base.Texts.{Text, eqb}
use coppermind.Schema.{Item, null, text, items, Frontmatter, get, KeyDefinition}
use coppermind.Schema.Times.{Iso}
use coppermind.Schema.Tags.{account_list}
use coppermind.Schema.Checks.{Problem, Roles, is_word}

abbrev pub is_none : List Problem → Bool
is_none [] = true
is_none (p ∷ ps) = false

module _ (iso : Iso) where
  -- A note lacks a key where its value is null or missing, and lacks the account key also where all
  -- entries of its value are blank texts.
  pub data Lacks (r : Roles iso) (d : KeyDefinition) (fm : Frontmatter) : Type 0 where
    no_value : get d.name fm ≡ null → Lacks r d fm
    blank_text :
        (s : Text)
        → eqb d.name r.account_key ≡ true
        → get d.name fm ≡ text s
        → account_list (text s) ≡ []
        → Lacks r d fm
    blank_entries :
        (l : List Item)
        → eqb d.name r.account_key ≡ true
        → get d.name fm ≡ items l
        → any (λ i. not (is_word i)) l ≡ false
        → account_list (items l) ≡ []
        → Lacks r d fm
