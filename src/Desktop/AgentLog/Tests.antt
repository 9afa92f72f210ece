-- ===== src/Desktop/AgentLog/Tests.antt =====
-- The theorems about the log of an agent at concrete inputs.
use dot_terminal.Prelude.{arith, false, none, some, List, [], ◌∷◌, All, Text, text}
use dot_terminal.Desktop.Table.{get}
use dot_terminal.Desktop.AgentLog.{Values, reduce_line}
use dot_terminal.Desktop.AgentLog.Contained.{IsContained, reduce_line-IsContained}
use dot_terminal.Desktop.AgentLog.Reading.{concat}
use dot_terminal.Desktop.AgentLog.Polling.{IsPolled, polls, polls-IsPolled}

-- Values that are texts: each field is looked up in the fields of one record, and each is its own list.
abbrev fields : List (Text × Text)
fields =
    (text "timestamp", text "t")
    ∷ (text "role", text "assistant")
    ∷ (text "type", text "tool_use")
    ∷ (text "id", text "ok_1")
    ∷ (text "name", text "<b>Bash</b> rm -rf")
    ∷ []

abbrev values : Values Text
values = record {
  from_str = λ t. some t;
  field = λ v k. elim (get k fields) [ none ↦ text "" | some found ↦ found ];
  as_str = λ v. some v;
  as_u64 = λ v. none;
  as_array = λ v. some (v ∷ []);
  is_true = λ v. false;
  to_string = λ v. v;
  from_utf8 = λ bs. some bs;
  sha256 = λ bs. bs;
}

reduce_line-IsContained_example : All (IsContained (λ bs. bs)) (reduce_line values (text "line"))
reduce_line-IsContained_example = reduce_line-IsContained values (text "line")

-- A line and a half, and then the rest of the second line.
polls-IsPolled_example :
    IsPolled values 0
      (concat ((1 ∷ 10 ∷ 2 ∷ []) ∷ (3 ∷ 10 ∷ []) ∷ []))
      (polls values [] 0 ((1 ∷ 10 ∷ 2 ∷ []) ∷ (3 ∷ 10 ∷ []) ∷ []))
polls-IsPolled_example =
    polls-IsPolled values [] 0 ((1 ∷ 10 ∷ 2 ∷ []) ∷ (3 ∷ 10 ∷ []) ∷ []) (omega arith)
