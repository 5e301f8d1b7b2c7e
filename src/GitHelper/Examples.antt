-- ===== src/GitHelper/Examples.antt =====
-- The theorems on services/git/coppermind_git/main.py, and two scans that record a change, with a
-- repository that is the name of its work tree and the list of its commits.
use coppermind.Base.{◌≤◌, ◌≡◌, refl, Bool, true, false, Option, none, some, List, [], ◌∷◌}
use coppermind.Base.Texts.{Text, codes, eqb}
use coppermind.Base.Attempt.{ok}
use coppermind.GitHelper.{
  shipped, second, heartbeat, NotesRepo, Helper, fresh, scan, after_ensure, find_head, head_found,
  with_head, after_stage, settle, after_commit, committed, finish, tick,
}
use coppermind.GitHelper.Waiting.{Positive, IsTimely, tick-IsTimely}
use coppermind.GitHelper.Settling.{Ending, scan-Ending}

abbrev Notes : Type 0
Notes = Text × List Text

head : List Text → Option (Text × Text)
head [] = none
head (c ∷ commits) = some (c, codes "now")

changes_from : Text → List Text → List (Text × Text)
changes_from tree [] = (codes "A", codes "Note.md") ∷ []
changes_from tree (c ∷ commits) = if_new (eqb c tree)
  where
    if_new : Bool → List (Text × Text)
    if_new true = []
    if_new false = (codes "M", codes "Note.md") ∷ []

abbrev repo : NotesRepo
repo = record {
  Repo = Notes;
  ensure = λ s r. (r, ok []);
  last_commit = λ r. ok (head r.1);
  stage = λ s r. (r, ok (record { tree = r.0; changes = changes_from r.0 r.1 }));
  commit = λ s snapshot r. ((r.0, snapshot.tree ∷ r.1), ok snapshot.tree);
}

abbrev typed : Notes
typed = (codes "tree", [])

scan-Ending_example :
    let (h', r') = scan repo 5000 fresh typed in Ending repo shipped none none typed h' r'
scan-Ending_example = scan-Ending repo 5000 fresh typed

tick-IsTimely_example :
    let (h', r', wait) = tick repo 5000 (ok shipped) fresh typed in
    (second ≤ wait) × (wait ≤ heartbeat) × (Positive shipped → true ≡ true → IsTimely h' 5000 wait)
tick-IsTimely_example = tick-IsTimely repo 5000 (ok shipped) fresh typed

-- The first scan only notices the change, and the next one records it.
one_scan : Helper × Notes
unfolding scan
one_scan = scan repo 0 fresh typed

two_scans : Helper × Notes
unfolding scan one_scan
two_scans = let (h, r) = one_scan in scan repo 60000 h r

noticed_first : one_scan.1 ≡ typed
unfolding one_scan after_ensure find_head head_found with_head after_stage settle finish
    changes_from head
noticed_first = refl

recorded_next : two_scans.1 ≡ (codes "tree", codes "tree" ∷ [])
unfolding two_scans after_ensure find_head head_found with_head after_stage settle after_commit
    committed finish changes_from head
recorded_next = refl
