-- ===== src/Desktop/SessionSummary.antt =====
-- crates/desktop/src/session_summary.rs: the names that the owner gave to sessions, and what a session
-- and the processes below it use. JSON is read by parameters, as are floating point numbers; a
-- directory of labels is its files in the order in which they are listed.
pub mod Descendants
pub mod Closing
pub mod Usage
mod Tests
use dot_terminal.Prelude.{
  ℕ, zero, suc, ◌+◌, Bool, true, false, not, ◌&&◌, ◌||◌, Option, none, some, List, [], ◌∷◌, ◌++◌,
  length, take, all, any, keep_if, is_empty, leb, ◌==◌, if◌then◌else◌, Text, Bytes, text, utf8,
  list_eq, u64_max, is_ascii_alphanumeric, is_ascii_hexdigit, is_control, Result, ok, err,
}
use dot_terminal.Core.Controller.{saturating_add}
use dot_terminal.Node.Workspace.{is_whitespace}
use dot_terminal.Node.Invitation.{trim}
use dot_terminal.Desktop.Table.{insert}

pub record Label : Type 0 where
  pub device : Text
  pub id : Text
  pub name : Text

abbrev pub path_part : Text → Bool
path_part s =
    not (is_empty s)
    && leb (length (utf8 s)) 64
    && all (λ c. is_ascii_alphanumeric c || c == 45) (utf8 s)

-- `Label::valid`
unfoldable pub valid : Label → Bool
valid l =
    path_part l.device
    && path_part l.id
    && (length (utf8 l.id) == 32)
    && all is_ascii_hexdigit (utf8 l.id)
    && not (is_empty (trim l.name))
    && leb (length (utf8 l.name)) 160
    && not (any is_control l.name)

pub data LabelError : Type 0 where
  invalid_label unwritable : LabelError

-- The files of the directory `session-labels`.
abbrev pub Labels : Type 0
Labels = List (Text × Bytes)

unfoldable pub file_name : Label → Text
file_name l = l.device ++ (45 ∷ (l.id ++ text ".json"))

unfoldable pub label_key : Label → Text
label_key l = l.device ++ (47 ∷ l.id)

-- `to_vec` and `from_slice` of a label; `persists`: whether the file is written and renamed.
module _ (to_vec : Label → Option Bytes) (from_slice : Bytes → Option Label) where
  -- `Label::save`
  unfoldable pub save_label : Bool → Label → Labels → Result LabelError (Unit {0}) × Labels
  save_label persists l files =
      if not (valid l)
      then (err invalid_label, files)
      else let trimmed : Label = record l { name = trim l.name } in
        elim (if persists then to_vec trimmed else none) [
          | none ↦ (err unwritable, files)
          | some bytes ↦ (ok tt, insert (file_name trimmed) bytes files)
        ]

  -- One file, added to the names that were found.
  unfoldable pub add_label : Bytes → List (Text × Text) → List (Text × Text)
  add_label bytes out = elim (from_slice bytes) [
    | none ↦ out
    | some l ↦ if valid l then insert (label_key l) l.name out else out
  ]

  unfoldable pub collect_labels : Labels → List (Text × Text) → List (Text × Text)
  collect_labels [] out = out
  collect_labels ((name, bytes) ∷ files) out = collect_labels files (add_label bytes out)

  unfoldable pub labels : Labels → List (Text × Text)
  unfolding collect_labels
  labels files = collect_labels (take 6400 files) []

-- What is read of a process of a snapshot; `F` stands for `f64`.
pub record Process (F : Type 0) : Type 0 where
  pub pid : Option ℕ
  pub ppid : Option ℕ
  pub cpu : Option F
  pub resident : Option ℕ

-- `at` and the processes of a snapshot, if it has them.
pub record Snapshot (Json F : Type 0) : Type 0 where
  pub at : Json
  pub processes : Option (List (Process F))

pub data Used (Json F : Type 0) : Type 0 where
  unknown : Used Json F
  -- at, cpu, resident, processes
  sampled : Json → F → ℕ → ℕ → Used Json F

-- A set of process identifiers, without repetition.
abbrev pub Ids : Type 0
Ids = List ℕ

abbrev pub contains : Ids → ℕ → Bool
contains ids i = any (λ j. j == i) ids

unfoldable pub add_id : ℕ → Ids → Ids
add_id i ids = if contains ids i then ids else i ∷ ids

abbrev pub has : Ids → Option ℕ → Bool
has ids none = false
has ids (some i) = contains ids i

abbrev pub get_or {ℓ} : {A : Type ℓ} → A → Option A → A
get_or d none = d
get_or d (some a) = a

module _ {F : Type 0} where
  abbrev pub is_pid : ℕ → Process F → Bool
  is_pid pid p = elim p.pid [ none ↦ false | some i ↦ i == pid ]

  -- A process, in a pass of the loop.
  unfoldable pub visit : Ids → Process F → Ids
  visit ids p = if has ids p.ppid then elim p.pid [ none ↦ ids | some i ↦ add_id i ids ] else ids

  unfoldable pub pass : List (Process F) → Ids → Ids
  pass [] ids = ids
  pass (p ∷ ps) ids = pass ps (visit ids p)

  -- The loop, on fuel; `none` if the fuel runs out.
  unfoldable pub close : ℕ → List (Process F) → Ids → Option Ids
  close zero ps ids = none
  close (suc fuel) ps ids =
      let more = pass ps ids in
      let rest = close fuel ps more in if length ids == length more then some more else rest

  unfoldable pub sum_resident : List (Process F) → ℕ → ℕ
  sum_resident [] acc = acc
  sum_resident (p ∷ ps) acc = sum_resident ps (saturating_add acc (get_or 0 p.resident))

  abbrev pub of_ids : Ids → List (Process F) → List (Process F)
  of_ids ids ps = keep_if (λ p. has ids p.pid) ps

  -- `0.0` and the addition of `f64`.
  module _ (float_zero : F) (add : F → F → F) where
    unfoldable pub sum_cpu : List (Process F) → F → F
    sum_cpu [] acc = acc
    sum_cpu (p ∷ ps) acc = sum_cpu ps (add acc (get_or float_zero p.cpu))

    -- The fuel is two more than the processes.
    unfoldable pub usage_of : {Json : Type 0} → Json → List (Process F) → ℕ → Option (Used Json F)
    usage_of at ps pid = elim (close (length ps + 2) ps (pid ∷ [])) [
      | none ↦ none
      | some ids ↦ some (
          sampled at (sum_cpu (of_ids ids ps) float_zero) (sum_resident (of_ids ids ps) 0)
            (length ids))
    ]

    unfoldable pub usage : {Json : Type 0} → Snapshot Json F → Option ℕ → Option (Used Json F)
    usage snapshot none = some unknown
    usage snapshot (some pid) = elim snapshot.processes [
      | none ↦ some unknown
      | some ps ↦ if not (any (is_pid pid) ps) then some unknown else usage_of snapshot.at ps pid
    ]
