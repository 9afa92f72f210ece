-- ===== src/Desktop/AgentLog/Contained.antt =====
-- What an event of an agent's log can hold: `reduce` of crates/desktop/src/agent_log.rs.
use dot_terminal.Prelude.{
  All-append, starts_with, contains_text, ℕ, zero, suc, ◌+◌, ◌≤◌, ◌≡◌, inl, inr, refl, arith, Bool,
  true, false, not, ◌&&◌, List, [], ◌∷◌, ◌++◌, length, all, any, All, take, keep_if, length-take,
  Text, Bytes, text, utf8, list_eq, ltb, if◌then◌else◌, Bool-cases, Option-cases,
}
use dot_terminal.Node.Invitation.{hex_encode}
use dot_terminal.Desktop.AgentLog.{
  Values, Event, compact, input, tool_start, tool_end, Item, no_item, is_name_char, says,
  category_names, first_arm, one_of, tool_name, category, id_ok, fingerprint, reduce_use,
  reduce_result, reduce_item, reduce_items, reduce_message, reduce_record, reduce, reduce_line,
  get_str, or_empty, input_if, has_str, compaction,
}

-- The names of the categories.
abbrev pub categories : List Text
categories =
    text "shell"
    ∷ text "files"
    ∷ text "browser"
    ∷ text "agent"
    ∷ text "tasks"
    ∷ text "oracle"
    ∷ text "other"
    ∷ []

abbrev pub IsTime : Text → Type 0
IsTime at = length (utf8 at) ≤ 40

-- A tool by at most 48 letters, digits and `_.:-`, a category of the list, and a fingerprint that is
-- the first six bytes of a digest in hexadecimal.
pub record IsTool (sha256 : Bytes → Bytes) (tool kind sig : Text) : Type 0 where
  pub short : length tool ≤ 48
  pub plain : all is_name_char tool ≡ true
  pub known : any (list_eq kind) categories ≡ true
  pub sig_short : length sig ≤ 12
  pub content : Bytes
  pub digested : sig ≡ hex_encode (take 6 (sha256 content))

abbrev pub IsContained : (Bytes → Bytes) → Event → Type 0
IsContained sha256 (compact at before after duration) = IsTime at
IsContained sha256 (input at) = IsTime at
IsContained sha256 (tool_start at id tool kind sig) =
    IsTime at × (id_ok id ≡ true) × IsTool sha256 tool kind sig
IsContained sha256 (tool_end at id error) = IsTime at × (id_ok id ≡ true)

all-keep_if : (p : ℕ → Bool) (xs : List ℕ) → all p (keep_if p xs) ≡ true
all-keep_if p [] = refl
all-keep_if p (x ∷ xs) = ground (arith, all-keep_if p xs)

all-take : (p : ℕ → Bool) (n : ℕ) (xs : List ℕ) → all p xs ≡ true → all p (take n xs) ≡ true
all-take p zero xs e = refl
all-take p (suc n) [] e = refl
all-take p (suc n) (x ∷ xs) e = ground (arith, all-take p n xs)

length-hex_encode : (bs : Bytes) → length (hex_encode bs) ≡ length bs + length bs
unfolding hex_encode
length-hex_encode [] = omega arith
length-hex_encode (b ∷ bs) = omega (arith, length-hex_encode bs)

is_known : Text → Bool
is_known kind = any (list_eq kind) categories

known_if :
    (b : Bool) (x y : Text)
    → is_known x ≡ true
    → is_known y ≡ true
    → is_known (if b then x else y) ≡ true
known_if true x y p q = p
known_if false x y p q = q

first_arm-known :
    (arms : List (List Text × Text)) (t otherwise : Text)
    → all (λ arm. is_known arm.1) arms ≡ true
    → is_known otherwise ≡ true
    → is_known (first_arm arms t otherwise) ≡ true
unfolding first_arm
first_arm-known [] t otherwise e last = last
first_arm-known ((names, kind) ∷ arms) t otherwise e last =
    known_if (one_of t names) kind (first_arm arms t otherwise) (ground arith)
      (first_arm-known arms t otherwise (ground arith) last)

category-known : (t : Text) → any (list_eq (category t)) categories ≡ true
unfolding category is_known
category-known t = first_arm-known category_names t _ refl (
    known_if (starts_with (text "mcp__claude-in-chrome") t) (text "browser")
      (if contains_text (text "oracle") t then text "oracle" else text "other") refl
      (known_if (contains_text (text "oracle") t) (text "oracle") (text "other") refl refl))

tool_name-short : (raw : Text) → length (tool_name raw) ≤ 48
unfolding tool_name
tool_name-short raw = omega (arith, length-take 48 (keep_if is_name_char raw))

tool_name-plain : (raw : Text) → all is_name_char (tool_name raw) ≡ true
unfolding tool_name
tool_name-plain raw =
    all-take is_name_char 48 (keep_if is_name_char raw) (all-keep_if is_name_char raw)

module _ {Json : Type 0} (json : Values Json) where
  fingerprint-short : (name : Text) (sent : Json) → length (fingerprint json name sent) ≤ 12
  unfolding fingerprint
  fingerprint-short name sent =
      let hash = json.sha256 (utf8 name ++ utf8 (json.to_string sent)) in
      omega (arith, length-hex_encode (take 6 hash), length-take 6 hash)

  fingerprint-digested :
      (name : Text) (sent : Json)
      → fingerprint json name sent
        ≡ hex_encode (take 6 (json.sha256 (utf8 name ++ utf8 (json.to_string sent))))
  unfolding fingerprint
  fingerprint-digested name sent = refl

  reduce_use-IsContained :
      (at : Text) (item : Json)
      → IsTime at
      → All (IsContained json.sha256) (reduce_use json at item).events
  unfolding reduce_use
  reduce_use-IsContained at item short = elim (Option-cases (get_str json item (text "id"))) [
    | inl bad ↦ rw (bad, reduce_use) tt
    | inr (id, e) ↦ elim (Option-cases (get_str json item (text "name"))) [
      | inl bad ↦ rw (e, reduce_use, bad) tt
      | inr (name, e') ↦ elim (Bool-cases (id_ok id)) [
        | inr bad ↦ rw (e, reduce_use, e', bad) tt
        | inl good ↦
            rw (e, reduce_use, e', good)
              (
                (
                  short,
                  good,
                  record {
                    short = tool_name-short name;
                    plain = tool_name-plain name;
                    known = category-known name;
                    sig_short = fingerprint-short name (json.field item (text "input"));
                    content = _;
                    digested = fingerprint-digested name (json.field item (text "input"));
                  },
                ),
                tt,
              )
      ]
    ]
  ]

  reduce_result-IsContained :
      (at : Text) (item : Json)
      → IsTime at
      → All (IsContained json.sha256) (reduce_result json at item).events
  unfolding reduce_result
  reduce_result-IsContained at item short =
      elim (Option-cases (get_str json item (text "tool_use_id"))) [
        | inl bad ↦ rw (bad, reduce_result) tt
        | inr (id, e) ↦ elim (Bool-cases (id_ok id)) [
          | inr bad ↦ rw (e, reduce_result, bad) tt
          | inl good ↦ rw (e, reduce_result, good) ((short, good), tt)
        ]
      ]

  -- What holds of both branches.
  by_test :
      (b : Bool) (x y : Item)
      → All (IsContained json.sha256) x.events
      → All (IsContained json.sha256) y.events
      → All (IsContained json.sha256) (if b then x else y).events
  by_test true x y p q = p
  by_test false x y p q = q

  reduce_item-IsContained :
      (at role : Text) (plain : Bool) (i : Json)
      → IsTime at
      → All (IsContained json.sha256) (reduce_item json at role plain i).events
  unfolding reduce_item
  reduce_item-IsContained at role plain i short =
      let typing : Item = record { events = []; typed = true } in
      let is_text =
        says json i (text "type") (text "text") && list_eq role (text "user") && plain in
      let is_result =
        says json i (text "type") (text "tool_result") && list_eq role (text "user") in
      let last = if is_text then typing else no_item in
      by_test (says json i (text "type") (text "tool_use") && list_eq role (text "assistant"))
        (reduce_use json at i) (if is_result then reduce_result json at i else last)
        (reduce_use-IsContained at i short)
        (by_test is_result (reduce_result json at i) last (reduce_result-IsContained at i short)
          (by_test is_text typing no_item tt tt))

  reduce_items-IsContained :
      (at role : Text) (plain : Bool) (items : List Json)
      → IsTime at
      → All (IsContained json.sha256) (reduce_items json at role plain items).events
  unfolding reduce_items
  reduce_items-IsContained at role plain [] short = tt
  reduce_items-IsContained at role plain (i ∷ is) short =
      All-append _ (reduce_item json at role plain i).events
        (reduce_items json at role plain is).events (reduce_item-IsContained at role plain i short)
        (reduce_items-IsContained at role plain is short)

  either :
      (b : Bool) (xs ys : List Event)
      → All (IsContained json.sha256) xs
      → All (IsContained json.sha256) ys
      → All (IsContained json.sha256) (if b then xs else ys)
  either true xs ys p q = p
  either false xs ys p q = q

  reduce_message-IsContained :
      (at : Text) (r : Json) → IsTime at → All (IsContained json.sha256) (reduce_message json at r)
  unfolding reduce_message
  reduce_message-IsContained at r short =
      let message = json.field r (text "message") in
      let role = or_empty (get_str json message (text "role")) in
      let content = json.field message (text "content") in
      let plain = not (json.is_true (json.field r (text "isMeta"))) in
      let items = reduce_items json at role plain (or_empty (json.as_array content)) in
      either (list_eq role (text "user") && has_str json content && plain) (input at ∷ [])
        (items.events ++ input_if at items.typed) (short, tt)
        (All-append _ items.events (input_if at items.typed)
          (reduce_items-IsContained at role plain (or_empty (json.as_array content)) short)
          (either items.typed (input at ∷ []) [] (short, tt) tt))

  reduce_record-IsContained : (r : Json) → All (IsContained json.sha256) (reduce_record json r)
  unfolding reduce_record compaction
  reduce_record-IsContained r = elim (Option-cases (get_str json r (text "timestamp"))) [
    | inl bad ↦ rw (bad, reduce_record) tt
    | inr (at, e) ↦ elim (Bool-cases (ltb 40 (length (utf8 at)))) [
      | inl long ↦ rw (e, reduce_record, long) tt
      | inr fits ↦
          let short : IsTime at = ground arith in
          rw (e, reduce_record, fits)
            (either (says json r (text "subtype") (text "compact_boundary"))
              (compaction json at r ∷ []) (reduce_message json at r) (short, tt)
              (reduce_message-IsContained at r short))
    ]
  ]

  -- Whatever a line of a log holds, each of its events has a time of at most 40 bytes, for a tool
  -- an identifier of 1 to 80 letters, digits, `_` and `-`, and for the start of one its name cut to
  -- 48 letters, digits and `_.:-`, one of seven categories and a fingerprint of at most 12 digits:
  -- the first six bytes of a SHA-256 digest in hexadecimal.
  pub reduce_line-IsContained :
      (line : Bytes) → All (IsContained json.sha256) (reduce_line json line)
  unfolding reduce_line reduce
  reduce_line-IsContained line = elim (Option-cases (json.from_utf8 line)) [
    | inl bad ↦ rw (bad, reduce_line) tt
    | inr (t, e) ↦ elim (Option-cases (json.from_str t)) [
      | inl bad ↦ rw (e, reduce_line, reduce, bad) tt
      | inr (r, e') ↦ rw (e, reduce_line, reduce, e') (reduce_record-IsContained r)
    ]
  ]
