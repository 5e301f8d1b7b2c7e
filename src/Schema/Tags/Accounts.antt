-- ===== src/Schema/Tags/Accounts.antt =====
-- The names that coppermind/schema.py reads from an account value.
use coppermind.Base.{◌≡◌, refl, inl, inr, false, List, [], ◌∷◌, map, All, Bool-cases}
use coppermind.Base.Texts.{Text, eqb, is_empty, is_space, strip}
use coppermind.Base.Distinct.{Distinct, Distinct-add_all, add_all_fixed, All-add_all, add_all}
use coppermind.Schema.{Item, word, thing, nested, Value, items}
use coppermind.Schema.Tags.{account_list, account_items, names_in}
use coppermind.Schema.Tags.Normal.{eqb_comm}
use coppermind.Base.Strip.{strip_twice}

-- A name that is not blank and has no white space at its ends.
pub record IsName (s : Text) : Type 0 where
  pub filled : is_empty s ≡ false
  pub stripped : strip is_space s ≡ s

names_in-IsName : (l : List Item) → All IsName (names_in l)
unfolding names_in
names_in-IsName [] = tt
names_in-IsName (thing n ∷ l) = names_in-IsName l
names_in-IsName (nested n ∷ l) = names_in-IsName l
names_in-IsName (word s ∷ l) = elim (Bool-cases (is_empty (strip is_space s))) [
  | inl e ↦ rw e (names_in-IsName l)
  | inr e ↦ rw e (record { filled = e; stripped = strip_twice is_space s }, names_in-IsName l)
]

names_in_fixed : (names : List Text) → All IsName names → names_in (map word names) ≡ names
unfolding names_in
names_in_fixed [] h = refl
names_in_fixed (s ∷ names) (p, h) = rw (p.stripped, p.filled, names_in_fixed names h) refl

-- Whatever the account value: the names read from it are not blank, have no white space at their
-- ends and no repeats; and a list of exactly these names reads as them.
pub account_list_lem :
    (v : Value)
    → All IsName (account_list v)
      × Distinct eqb (account_list v)
      × (account_list (items (map word (account_list v))) ≡ account_list v)
unfolding account_list
account_list_lem v =
    let names =
      All-add_all eqb IsName (names_in (account_items v)) [] (names_in-IsName (account_items v))
        tt in
    let distinct = Distinct-add_all eqb eqb_comm [] (names_in (account_items v)) tt in
    (
      names,
      distinct,
      rw (names_in_fixed (add_all eqb [] (names_in (account_items v))) names)
          (add_all_fixed eqb eqb_comm [] (add_all eqb [] (names_in (account_items v))) distinct),
    )
