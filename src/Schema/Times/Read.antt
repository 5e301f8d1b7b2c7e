-- ===== src/Schema/Times/Read.antt =====
-- What coppermind/schema.py reads of a date or a time holds together.
use coppermind.Base.{◌≡◌, refl, Bool, true, false, ◌||◌, Option, none, some, if◌then◌else◌, arith}
use coppermind.Base.Texts.{Text, is_empty, is_space, strip}
use coppermind.Naming.{Date}
use coppermind.Schema.{
  Clock, Moment, Value, null, boolean, integer, text, items, day, moment, other,
}
use coppermind.Schema.Times.{
  Iso, ParsedNoteTime, absent, unreadable, is_some, with_offset, local, of_date, of_text,
  of_datetime_text, of_time_text, parse_date_text, parse_note_time,
}

-- A valid value is present, has a date or a time and no offset; a value with an offset has a time but is
-- not valid; and a value that is not there says nothing.
pub record IsCoherent (p : ParsedNoteTime) : Type 0 where
  pub of_valid :
      p.valid ≡ true
      → (p.present ≡ true)
        × (p.has_offset ≡ false)
        × ((is_some p.date_value || is_some p.time_value) ≡ true)
  pub of_offset : p.has_offset ≡ true → (p.valid ≡ false) × (is_some p.time_value ≡ true)
  pub of_absent :
      p.present ≡ false → (p.date_value ≡ none) × (p.time_value ≡ none) × (p.has_offset ≡ false)

absent-IsCoherent : IsCoherent absent
absent-IsCoherent = record {
  of_valid = λ e. cc;
  of_offset = λ e. cc;
  of_absent = λ e. (refl, refl, refl);
}

unreadable-IsCoherent : IsCoherent unreadable
unreadable-IsCoherent = record { of_valid = λ e. cc; of_offset = λ e. cc; of_absent = λ e. cc }

module _ (iso : Iso) where
  of_date-IsCoherent : (d : Option Date) → IsCoherent (of_date iso d)
  of_date-IsCoherent none = unreadable-IsCoherent
  of_date-IsCoherent (some d) = record {
    of_valid = λ e. (refl, refl, refl);
    of_offset = λ e. cc;
    of_absent = λ e. cc;
  }

  with_offset-IsCoherent : (d : Option Date) (c : Clock) → IsCoherent (with_offset iso d c)
  unfolding with_offset
  with_offset-IsCoherent d c = record {
    of_valid = λ e. cc;
    of_offset = λ e. (refl, refl);
    of_absent = λ e. cc;
  }

  local-IsCoherent : (d : Option Date) (c : Clock) → IsCoherent (local iso d c)
  unfolding local
  local-IsCoherent d c = record {
    of_valid = λ e. (refl, refl, ground arith);
    of_offset = λ e. cc;
    of_absent = λ e. cc;
  }

  branch-IsCoherent :
      (b e : Bool) (p q : ParsedNoteTime)
      → IsCoherent p
      → IsCoherent q
      → IsCoherent (if b then p else if e then q else unreadable)
  branch-IsCoherent true e p q h k = h
  branch-IsCoherent false true p q h k = k
  branch-IsCoherent false false p q h k = unreadable-IsCoherent

  of_datetime_text-IsCoherent :
      (s : Text) (m : Option Moment) → IsCoherent (of_datetime_text iso s m)
  unfolding of_datetime_text
  of_datetime_text-IsCoherent s none = unreadable-IsCoherent
  of_datetime_text-IsCoherent s (some m) =
      branch-IsCoherent _ _ _ _ (with_offset-IsCoherent (some m.date) m.clock)
        (local-IsCoherent (some m.date) m.clock)

  of_time_text-IsCoherent :
      (s : Text) (t : Option (Clock × Bool)) → IsCoherent (of_time_text iso s t)
  unfolding of_time_text
  of_time_text-IsCoherent s none = unreadable-IsCoherent
  of_time_text-IsCoherent s (some (c, offset)) =
      branch-IsCoherent _ _ _ _ (with_offset-IsCoherent none c) (local-IsCoherent none c)

  choose-IsCoherent :
      (b : Bool) (p q : ParsedNoteTime)
      → IsCoherent p
      → IsCoherent q
      → IsCoherent (if b then p else q)
  choose-IsCoherent true p q h k = h
  choose-IsCoherent false p q h k = k

  of_text-IsCoherent : (s : Text) → IsCoherent (of_text iso s)
  unfolding of_text
  of_text-IsCoherent s = choose-IsCoherent (is_empty s) _ _ absent-IsCoherent (
      choose-IsCoherent _ _ _ (of_date-IsCoherent (parse_date_text iso s)) (
        choose-IsCoherent _ _ _ (of_datetime_text-IsCoherent s (Iso.datetime_of iso s))
          (of_time_text-IsCoherent s (Iso.time_of iso s))))

  -- Whatever the value of a note's `date` or `time`, and whatever the datetime module makes of its
  -- text: if it is valid, it is present, gives a day or a time of day, and has no offset; if it has
  -- an offset, it is not valid; and a value that is missing or blank gives nothing.
  pub parse_note_time-IsCoherent : (v : Value) → IsCoherent (parse_note_time iso v)
  unfolding parse_note_time
  parse_note_time-IsCoherent null = absent-IsCoherent
  parse_note_time-IsCoherent other = unreadable-IsCoherent
  parse_note_time-IsCoherent (boolean b) = unreadable-IsCoherent
  parse_note_time-IsCoherent (integer n) = unreadable-IsCoherent
  parse_note_time-IsCoherent (items l) = unreadable-IsCoherent
  parse_note_time-IsCoherent (day d) = of_date-IsCoherent (some d)
  parse_note_time-IsCoherent (text s) = of_text-IsCoherent (strip is_space s)
  parse_note_time-IsCoherent (moment m) =
      choose-IsCoherent m.has_offset _ _ (with_offset-IsCoherent (some m.date) m.clock)
        (local-IsCoherent (some m.date) m.clock)
