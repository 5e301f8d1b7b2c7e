-- ===== src/GitHelper/Settings/Accepted/Examples.antt =====
-- A settings file of the Git helper that is accepted, and some that are not.
use coppermind.Base.{◌≡◌, refl, true, some, [], ◌∷◌}
use coppermind.Base.Texts.{codes, strip, lstrip, rstrip, is_space}
use coppermind.Base.Dict.{Dict, lookup}
use coppermind.Base.Integers.{pos}
use coppermind.Base.Attempt.{raises, ok}
use coppermind.Naming.{split_slash, split_from}
use coppermind.GitHelper.{shipped}
use coppermind.GitHelper.Settings.{
  Scalar, boolean, integer, string, section, Document, document, content, section_of, flag,
  flag_from, value_from, seconds, seconds_from, line, line_from, folder, folder_from, load_sections,
  load_document, load, not_seconds, not_inside,
}
use coppermind.GitHelper.Settings.Accepted.{IsUsable, load-IsUsable}

abbrev file_with : Dict Scalar → Dict Scalar → Document
file_with git notes = document ((codes "git", section git) ∷ (codes "notes", section notes) ∷ [])

abbrev entries : Document
entries =
    file_with ((codes "debounce_s", integer (pos 5)) ∷ [])
      ((codes "trash_folder", string (codes "/Old/Trash/")) ∷ [])

accepted :
    load (λ text. some entries) (content [])
    ≡ ok (record shipped { debounce_s = 5; trash_folder = codes "Old/Trash" })
unfolding load load_document load_sections section_of lookup flag flag_from value_from seconds
    seconds_from line line_from folder folder_from strip lstrip rstrip is_space split_slash
    split_from
accepted = refl

load-IsUsable_example :
    IsUsable (record shipped { debounce_s = 5; trash_folder = codes "Old/Trash" })
load-IsUsable_example =
    load-IsUsable (λ text. some entries) (content [])
      (record shipped { debounce_s = 5; trash_folder = codes "Old/Trash" }) accepted

true_is_no_number :
    load (λ text. some (file_with ((codes "debounce_s", boolean true) ∷ []) [])) (content [])
    ≡ raises (not_seconds (codes "debounce_s"))
unfolding load load_document load_sections section_of lookup flag flag_from value_from seconds
    seconds_from
true_is_no_number = refl

all_notes_refused :
    load
      (λ text. some (file_with [] ((codes "trash_folder", string (codes "/")) ∷ [])))
      (content [])
    ≡ raises (not_inside (codes "trash_folder"))
unfolding load load_document load_sections section_of lookup flag flag_from value_from seconds
    seconds_from line line_from folder folder_from strip lstrip rstrip is_space split_slash
    split_from
all_notes_refused = refl
