-- ===== src/Dropbox/Intake.antt =====
-- services/store/coppermind_store/dropbox.py: what `submit` records of a file and what `dismiss` does to a
-- receipt.
use coppermind.Base.{
  ℕ, ◌≡◌, ◌⊎◌, refl, ◌∙◌, ap, inl, inr, Bool, true, false, not, Option, none, some, Bool-cases,
  if◌then◌else◌,
}
use coppermind.Base.Texts.{Text, eqb, eqb_refl}
use coppermind.Base.Dict.{lookup, lookup-insert}
use coppermind.Base.Attempt.{ok}
use coppermind.Dropbox.{
  Bytes, pending, already_imported, Marker, Item, Services, Python, Dropbox, in_flight, refusal,
  new_item, is_duplicate, history_of, adopt_content, kept_or, submit, original, check_original,
}
use coppermind.Dropbox.Process.{is_pending}

-- What the adoption of a content does: it is on file under its hash, whole; its receipt is there, under
-- that hash and with the file's name, waiting or already imported; nothing else changes.
pub record Adopts {A : Type 0} (python : Python) (services : Services A) (filename : Text)
    (data_ : Bytes) (kind : Option Marker) (d : Dropbox A) (i : Item) (e : Dropbox A) : Type 0 where
  pub on_file : original python services e (python.sha256 data_) ≡ ok data_
  pub recorded : lookup (python.sha256 data_) e.records.items ≡ some i
  pub named : i.filename ≡ filename
  pub declared : i.kind ≡ kind
  pub waits :
      is_pending i.state
      ≡ not (
          is_duplicate kind
            (history_of (python.sha256 data_) (services.receipts d.archive) d.records.history)
            (lookup (python.sha256 data_) d.records.items))
  pub others :
      (digest : Text)
      → eqb (python.sha256 data_) digest ≡ false
      → (lookup digest e.records.items ≡ lookup digest d.records.items)
        × (original python services e digest ≡ original python services d digest)
  pub same_history : e.records.history ≡ d.records.history
  pub same_archive : e.archive ≡ d.archive

module _ {A : Type 0} (python : Python) (services : Services A) where
  open python use {sha256}

  starts : (b : Bool) → is_pending (if b then already_imported else pending) ≡ not b
  unfolding is_pending
  starts true = refl
  starts false = refl

  adopt_content-Adopts :
      (now : ℕ) (received filename : Text) (data_ : Bytes) (kind : Option Marker) (d : Dropbox A)
      → let (i, e) = adopt_content python services now received filename data_ kind d in
        Adopts python services filename data_ kind d i e
  unfolding adopt_content new_item is_pending original check_original
  adopt_content-Adopts now received filename data_ kind d = record {
    on_file =
        rw
          (
            lookup-insert (sha256 data_) (sha256 data_) data_ d.originals,
            eqb_refl (sha256 data_),
            eqb_refl (sha256 data_),
          )
          refl;
    recorded =
        rw (lookup-insert (sha256 data_) (sha256 data_) _ d.records.items, eqb_refl (sha256 data_))
          refl;
    named = refl;
    declared = refl;
    waits = starts (is_duplicate kind _ _);
    others = λ digest n. (
      rw (lookup-insert (sha256 data_) digest _ d.records.items, n) refl,
      rw (lookup-insert (sha256 data_) digest data_ d.originals, n) refl,
    );
    same_history = refl;
    same_archive = refl;
  }

  pub kept_or-cases :
      (old : Option Item) (d : Dropbox A) (new : Item × Dropbox A)
      → ((i : Item) × (old ≡ some i)
          × (in_flight old ≡ true)
          × (kept_or python services old d new ≡ (i, d)))
        ⊎ ((in_flight old ≡ false) × (kept_or python services old d new ≡ new))
  unfolding kept_or in_flight
  kept_or-cases none d new = inr (refl, refl)
  kept_or-cases (some i) d new = elim (Bool-cases (in_flight (some i))) [
    | inl f ↦ inl (i, refl, f, rw f refl)
    | inr f ↦ inr (f, rw f refl)
  ]

  pub submit-passes :
      (now : ℕ) (received filename : Text) (data_ : Bytes) (kind : Option Marker) (d : Dropbox A)
      → refusal filename data_ kind ≡ none
      → submit python services now received filename data_ kind d
        ≡ ok (
            kept_or python services
              (lookup (sha256 data_) d.records.items)
              d
              (adopt_content python services now received filename data_ kind d))
  unfolding submit
  submit-passes now received filename data_ kind d r = rw (submit, r) refl

  -- A file that the guards let pass is taken. If an item of its hash waits or is being imported, that
  -- item is returned and nothing changes. If none is, the bytes are on file under their hash, where
  -- they pass the check of their integrity, and the item is recorded under it with the file's name and
  -- kind; it waits, unless it is a duplicate; and nothing else changes.
  pub submit-Adopts :
      (now : ℕ) (received filename : Text) (data_ : Bytes) (kind : Option Marker) (d : Dropbox A)
      → refusal filename data_ kind ≡ none
      → (i : Item) × (e : Dropbox A) × (submit python services now received filename data_ kind d
          ≡ ok (i, e))
        × (((lookup (sha256 data_) d.records.items ≡ some i)
              × (in_flight (some i) ≡ true)
              × (e ≡ d))
            ⊎ ((in_flight (lookup (sha256 data_) d.records.items) ≡ false)
                × Adopts python services filename data_ kind d i e))
  submit-Adopts now received filename data_ kind d r =
      let passes = submit-passes now received filename data_ kind d r in
      let new = adopt_content python services now received filename data_ kind d in
      elim (kept_or-cases (lookup (sha256 data_) d.records.items) d new) [
        | inl c ↦ (c.0, d, passes ∙ ap ok c.3, inl (c.1, rw c.1 at c.2, refl))
        | inr c ↦ (
          new.0,
          new.1,
          passes ∙ ap ok c.1,
          inr (c.0, adopt_content-Adopts now received filename data_ kind d),
        )
      ]
