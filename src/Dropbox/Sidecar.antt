-- ===== src/Dropbox/Sidecar.antt =====
-- services/store/coppermind_store/dropbox.py: what a `.kind` sidecar declares (`read_kind_marker`), and
-- which calendar handler takes a file by its bytes (`Dropbox.handler`).
use coppermind.Base.{
  ℕ, Bool, false, ◌||◌, Option, none, some, List, [], ◌∷◌, length, ltb, if◌then◌else◌,
}
use coppermind.Base.Texts.{Text, codes, eqb, elem, is_empty, is_space, strip, lstrip, starts_with}
use coppermind.Base.Dict.{Dict, lookup}
use coppermind.Dropbox.{Bytes, Marker, Json, json_text, json_list, Python}

-- OFFICE_SUFFIXES
is_office : Text → Bool
is_office s =
    eqb s (codes ".pptx")
    || eqb s (codes ".docx")
    || eqb s (codes ".xlsx")
    || eqb s (codes ".odt")
    || eqb s (codes ".odp")
    || eqb s (codes ".ods")
    || eqb s (codes ".epub")

abbrev pub zip_magic : Bytes
zip_magic = b'P' ∷ b'K' ∷ 3 ∷ 4 ∷ []

-- b"\xef\xbb\xbf \t\r\n"
abbrev pub is_lead : ℕ → Bool
is_lead c = elem c (0xef ∷ 0xbb ∷ 0xbf ∷ 32 ∷ 9 ∷ 13 ∷ 10 ∷ [])

-- text.split()[0] of a text without white space at its start
first_word : Text → Text
first_word [] = []
first_word (c ∷ s) = let rest = first_word s in if is_space c then [] else c ∷ rest

texts_in : List (Option Text) → List Text
texts_in [] = []
texts_in (none ∷ l) = texts_in l
texts_in (some s ∷ l) = s ∷ texts_in l

is_json_text : Text → Option Json → Bool
is_json_text s (some (json_text t)) = eqb t s
is_json_text s j = false

-- The title of a marker, which must not be blank.
title_of : Option Json → Option Text
unfolding strip
title_of (some (json_text s)) =
    let title = strip is_space s in if is_empty title then none else some title
title_of j = none

tags_of : Option Json → List Text
unfolding texts_in
tags_of (some (json_list l)) = texts_in l
tags_of j = []

date_of : Option Json → Option Text
date_of (some (json_text s)) = some s
date_of j = none

-- What a JSON object declares; a value of another class is `none`.
unfoldable pub of_object : Option (Dict Json) → Option Marker
unfolding is_json_text title_of tags_of date_of lookup
of_object none = none
of_object (some fields) =
    if is_json_text (codes "artifact") (lookup (codes "kind") fields)
    then some (record {
      kind = codes "artifact";
      title = title_of (lookup (codes "title") fields);
      tags = tags_of (lookup (codes "tags") fields);
      date = date_of (lookup (codes "date") fields);
    })
    else none

abbrev plain_artifact : Marker
plain_artifact = record { kind = codes "artifact"; title = none; tags = []; date = none }

module _ (python : Python) where
  open python use {suffix, decode, loads, lower}

  of_json : Option (Option (Dict Json)) → Option Marker
  unfolding of_object
  of_json none = none
  of_json (some o) = of_object o

  of_stripped : Text → Option Marker
  unfolding of_json first_word starts_with
  of_stripped s =
      if is_empty s || ltb 4096 (length s)
      then none
      else if starts_with (codes "{") s
      then of_json (loads s)
      else if eqb (lower (first_word s)) (codes "artifact")
      then some plain_artifact
      else none

  of_decoded : Option Text → Option Marker
  unfolding of_stripped strip
  of_decoded none = none
  of_decoded (some s) = of_stripped (strip is_space s)

  -- `read_kind_marker`, where `none` is None
  unfoldable pub read_kind_marker : Bytes → Option Marker
  unfolding of_decoded
  read_kind_marker data_ = of_decoded (decode data_)

  -- `handler`
  unfoldable pub handler : Bytes → Text → Option Text
  unfolding is_office lstrip starts_with
  handler data_ filename =
      let ending = suffix filename in
      if is_office ending
      then none
      else if starts_with (codes "BEGIN:VCALENDAR") (lstrip is_lead data_)
      then some (codes ".ics")
      else if starts_with zip_magic data_
      then some (codes ".zip")
      else if eqb ending (codes ".ics") || eqb ending (codes ".zip")
      then some ending
      else none
  -- A marker that is read declares an artifact, its title is not blank, and so `submit` lets it pass.
