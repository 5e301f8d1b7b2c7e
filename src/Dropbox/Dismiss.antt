-- ===== src/Dropbox/Dismiss.antt =====
-- services/store/coppermind_store/dropbox.py: the dismissal of a receipt (`dismiss`).
use coppermind.Base.{none, some, List, [], ◌∷◌, if◌then◌else◌}
use coppermind.Base.Texts.{Text}
use coppermind.Base.Dict.{lookup, insert, remove}
use coppermind.Base.Attempt.{Attempt, raises, ok}
use coppermind.Dropbox.{
  Error, failed, Part, import_part, artifact_part, Item, Records, Services, Dropbox, is_settled,
  past_of,
}

-- What `dismiss` raises: its own refusal, a part that is no import, or what the archive raises.
pub data Refused : Type 0 where
  not_settled no_import : Refused
  by_archive : Error → Refused

module _ {A : Type 0} (services : Services A) where
  open services use {dismiss_import}

  -- The archive's dismissals of a failed item's parts, up to the first that raises.
  unfoldable pub dismiss_parts : List Part → A → Attempt Refused (Unit {0}) × A
  dismiss_parts [] a = (ok tt, a)
  dismiss_parts (artifact_part id ∷ parts) a = (raises no_import, a)
  dismiss_parts (import_part id ∷ parts) a =
      let (outcome, b) = dismiss_import id a in
      elim outcome [ raises e ↦ (raises (by_archive e), b) | ok u ↦ dismiss_parts parts b ]

  unfoldable pub dismiss_failed : Item → A → Attempt Refused (Unit {0}) × A
  unfolding dismiss_parts
  dismiss_failed i a = elim i.state [ failed ↦ dismiss_parts i.parts a | _ ↦ (ok tt, a) ]

  -- The item moved to the history.
  abbrev pub moved_out : Text → Item → Records → Records
  moved_out identity i r = record r {
    items = remove identity r.items;
    history = insert identity (past_of i) r.history;
  }

  unfoldable pub dismiss_item : Text → Item → Dropbox A → Attempt Refused (Unit {0}) × Dropbox A
  unfolding is_settled dismiss_failed insert remove
  dismiss_item identity i d =
      if is_settled i.state
      then (let (outcome, b) = dismiss_failed i d.archive in
          elim outcome [
            | raises e ↦ (raises e, record d { archive = b })
            | ok u ↦ (ok tt, record d { archive = b; records = moved_out identity i d.records })
          ])
      else (raises not_settled, d)

  unfoldable pub dismiss : Text → Dropbox A → Attempt Refused (Unit {0}) × Dropbox A
  unfolding dismiss_item lookup
  dismiss identity d = elim (lookup identity d.records.items) [
    | none ↦ (raises not_settled, d)
    | some i ↦ dismiss_item identity i d
  ]
