-- ===== src/GitHelper/Settings/Accepted.antt =====
-- Settings that services/git/coppermind_git/settings.py loads are safe to run with.
mod Examples
use coppermind.Base.{
  ℕ, ◌<◌, ◌≡◌, refl, sym, ap, ◌∙◌, inl, inr, Bool, true, false, ◌||◌, Option, none, some, List, [],
  ◌∷◌, any, ltb, if◌then◌else◌, Bool-cases, arith,
}
use coppermind.Base.Texts.{Text, codes, eqb, is_empty, is_space, strip, lstrip, rstrip}
use coppermind.Base.Dict.{Dict, lookup}
use coppermind.Base.Integers.{ℤ, pos, negsuc}
use coppermind.Base.Attempt.{Attempt, raises, ok, ◌>>=◌, Succeeds, through, >>=-Succeeds}
use coppermind.Naming.{split_slash, split_from}
use coppermind.GitHelper.{HelperSettings, shipped}
use coppermind.GitHelper.Waiting.{Positive}
use coppermind.GitHelper.Settings.{
  SettingsError, Scalar, null, other, boolean, integer, string, Section, Document, no_document,
  other_document, document, value_from, section_of, flag, line, seconds_from, seconds, is_slash,
  is_outside, folder_from, folder, load_sections, Reading, missing, not_read, content,
  load_document, load,
}

-- No part of a folder stands for the folder that it is in or for one above it.
abbrev pub IsInside : Text → Type 0
IsInside folder = any is_outside (split_slash folder) ≡ false

pub record IsUsable (s : HelperSettings) : Type 0 where
  pub times : Positive s
  pub sources_inside : IsInside s.sources_folder
  pub trash_inside : IsInside s.trash_folder

seconds_from_positive : (key : Text) (v : Scalar) (n : ℕ) → seconds_from key v ≡ ok n → 0 < n
unfolding seconds_from
seconds_from_positive key null n h = cc
seconds_from_positive key other n h = cc
seconds_from_positive key (boolean b) n h = cc
seconds_from_positive key (integer (pos m)) n h = ground arith
seconds_from_positive key (integer (negsuc m)) n h = cc
seconds_from_positive key (string s) n h = cc

folder_from-IsInside : (key value inner : Text) → folder_from key value ≡ ok inner → IsInside inner
unfolding folder_from
folder_from-IsInside key value inner h =
    elim (Bool-cases (any is_outside (split_slash (strip is_slash value)))) [
      | inl e ↦ cc (rw e at h)
      | inr e ↦ let same : strip is_slash value ≡ inner = ground arith in rw (← same) e
    ]

folder-IsInside :
    (entries : Dict Scalar) (key default inner : Text)
    → folder entries key default ≡ ok inner
    → IsInside inner
unfolding folder
folder-IsInside entries key default inner h =
    elim (>>=-Succeeds (line entries key default) (folder_from key) h) [
      | through value _ e ↦ folder_from-IsInside key value inner e
    ]

seconds_positive :
    (entries : Dict Scalar) (key : Text) (default n : ℕ)
    → seconds entries key default ≡ ok n
    → 0 < n
unfolding seconds
seconds_positive entries key default n h =
    seconds_from_positive key (value_from (lookup key entries) (integer (pos default))) n h

load_sections-IsUsable :
    (d : Dict Section) (s : HelperSettings) → load_sections d ≡ ok s → IsUsable s
unfolding load_sections
load_sections-IsUsable d s h₀ =
    elim (>>=-Succeeds (section_of (codes "git") (lookup (codes "git") d)) _ h₀) [
      | through git _ h₁ ↦
          elim (>>=-Succeeds (section_of (codes "notes") (lookup (codes "notes") d)) _ h₁) [
            | through notes _ h₂ ↦
                elim (>>=-Succeeds (flag git (codes "enabled") shipped.enabled) _ h₂) [
                  | through enabled _ h₃ ↦
                      elim (>>=-Succeeds (seconds git (codes "debounce_s") shipped.debounce_s) _
                        h₃) [
                          | through debounce p h₄ ↦
                              elim (>>=-Succeeds
                                (seconds git (codes "poll_interval_s") shipped.poll_interval_s) _
                                h₄) [
                                  | through poll q h₅ ↦
                                      elim (>>=-Succeeds
                                        (line git (codes "identity_name") shipped.identity_name) _
                                        h₅) [
                                          | through name _ h₆ ↦
                                              elim (>>=-Succeeds
                                                (line git (codes "identity_email")
                                                  shipped.identity_email)
                                                _ h₆) [
                                                  | through email _ h₇ ↦
                                                      elim (>>=-Succeeds
                                                        (flag git (codes "gc_auto") shipped.gc_auto)
                                                        _ h₇) [
                                                          | through gc _ h₈ ↦
                                                            elim (>>=-Succeeds
                                                            (folder notes (codes "sources_folder")
                                                            shipped.sources_folder)
                                                            _ h₈) [
                                                              | through sources f h₉ ↦
                                                                elim (>>=-Succeeds
                                                                (folder notes (codes "trash_folder")
                                                                shipped.trash_folder)
                                                                _ h₉) [
                                                                  | through trash g h ↦ record {
                                                                  times = ground (
                                                                  arith,
                                                                  seconds_positive git
                                                                  (codes "debounce_s")
                                                                  shipped.debounce_s debounce p,
                                                                  seconds_positive git
                                                                  (codes "poll_interval_s")
                                                                  shipped.poll_interval_s poll q,
                                                                  );
                                                                  sources_inside = ground (
                                                                  arith,
                                                                  folder-IsInside notes
                                                                  (codes "sources_folder")
                                                                  shipped.sources_folder sources f,
                                                                  );
                                                                  trash_inside = ground (
                                                                  arith,
                                                                  folder-IsInside notes
                                                                  (codes "trash_folder")
                                                                  shipped.trash_folder trash g,
                                                                  );
                                                                  }
                                                                ]
                                                            ]
                                                        ]
                                                ]
                                        ]
                                ]
                        ]
                ]
          ]
    ]

shipped-IsUsable : IsUsable shipped
unfolding split_slash split_from strip is_space
shipped-IsUsable = record {
  times = (omega arith, omega arith);
  sources_inside = refl;
  trash_inside = refl;
}

load_document-IsUsable :
    (d : Option Document) (s : HelperSettings) → load_document d ≡ ok s → IsUsable s
unfolding load_document
load_document-IsUsable none s h = cc
load_document-IsUsable (some no_document) s h =
    let same : shipped ≡ s = ground arith in rw (← same) shipped-IsUsable
load_document-IsUsable (some other_document) s h = cc
load_document-IsUsable (some (document d)) s h = load_sections-IsUsable d s h

-- Whatever the settings file holds and whatever the loader makes of it: settings that are loaded, the
-- defaults of a missing or an empty file included, have both times at least a second, and neither the
-- sources folder nor the trash folder has a part that is blank, `.` or `..`, so that neither is the
-- whole of the notes or outside them.
pub load-IsUsable :
    (load_yaml : Text → Option Document) (file : Reading) (s : HelperSettings)
    → load load_yaml file ≡ ok s
    → IsUsable s
unfolding load
load-IsUsable load_yaml missing s h =
    let same : shipped ≡ s = ground arith in rw (← same) shipped-IsUsable
load-IsUsable load_yaml not_read s h = cc
load-IsUsable load_yaml (content text) s h = load_document-IsUsable (load_yaml text) s h
