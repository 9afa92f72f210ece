-- ===== src/Desktop/Devices/Relay.antt =====
-- `call` of crates/desktop/src/devices.rs, with the requests that are relayed to another node: `relay`,
-- `remote_create` and `remote_operation` of crates/desktop/src/main.rs.
use dot_terminal.Prelude.{
  ℕ, ◌+◌, ◌-◌, ◌*◌, Bool, not, ◌&&◌, ◌||◌, Option, none, some, List, [], ◌∷◌, ◌++◌, length, take,
  drop, all, any, is_empty, leb, ltb, ◌==◌, if◌then◌else◌, Text, Bytes, text, utf8, list_eq,
  starts_with, contains_text, map, get_elem?, is_ascii_alphanumeric, is_ascii_digit, Result, ok,
  err,
}
use mathlib.Core.List.{reverse}
use dot_terminal.Protocol.{Operation}
use dot_terminal.Node.{is_stop}
use dot_terminal.Node.Workspace.{is_whitespace}
use dot_terminal.Node.Invitation.{decimal}
use dot_terminal.Desktop.Devices.{
  Device, Error, SocketAddr, bad_path, bad_response, bad_status, chunked, max_response,
  strip_prefix, too_large, unreachable,
}

-- The head of the response ends with the first empty line.
unfoldable pub split_head : Bytes → Option (Bytes × Bytes)
split_head [] = none
split_head (b ∷ bs) =
    let rest = split_head bs in
    if list_eq (take 4 (b ∷ bs)) (13 ∷ 10 ∷ 13 ∷ 10 ∷ [])
    then some ([], drop 3 bs)
    else elim rest [ none ↦ none | some (head, body) ↦ some (b ∷ head, body) ]

-- `split_whitespace`: the words, with the one that is being read.
unfoldable pub words_from : Text → Text → List Text
words_from [] word = if is_empty word then [] else reverse word ∷ []
words_from (c ∷ cs) word =
    let more = words_from cs [] in
    let longer = words_from cs (c ∷ word) in
    if is_whitespace c then (if is_empty word then more else reverse word ∷ more) else longer

-- `parse` of a number with a bound; a sign `+` is allowed.
unfoldable pub digits_of : Text → ℕ → Option ℕ
digits_of [] acc = some acc
digits_of (c ∷ cs) acc =
    let rest = digits_of cs (acc * 10 + (c - 48)) in if is_ascii_digit c then rest else none

unfoldable pub parse_number : ℕ → Text → Option ℕ
unfolding digits_of
parse_number most t =
    let unsigned : Text = elim (strip_prefix (43 ∷ []) t) [ none ↦ t | some rest ↦ rest ] in
    if is_empty unsigned
    then none
    else elim (digits_of unsigned 0) [ none ↦ none | some n ↦ if leb n most then some n else none ]

-- `to_ascii_lowercase`
abbrev pub to_lower : ℕ → ℕ
to_lower c = if leb 65 c && leb c 90 then c + 32 else c

-- `from_utf8`; `exchange`: what comes back, if the connection works, after these bytes were sent.
pub record Network : Type 0 where
  pub from_utf8 : Bytes → Option Text
  pub exchange : SocketAddr → Bytes → Option Bytes
  pub show_addr : SocketAddr → Text

-- What was sent, and where to.
pub record Sent : Type 0 where
  pub addr : SocketAddr
  pub bytes : Bytes

module _ (n : Network) where
  unfoldable pub parse_response : Bytes → Result Error (ℕ × Bytes)
  unfolding split_head words_from parse_number
  parse_response raw = elim (split_head raw) [
    | none ↦ err bad_response
    | some (head, body) ↦ elim (n.from_utf8 head) [
      | none ↦ err bad_response
      | some t ↦ elim (get_elem? (words_from t []) 1) [
        | none ↦ err bad_status
        | some word ↦ elim (parse_number 65535 word) [
          | none ↦ err bad_status
          | some status ↦
              if contains_text (text "transfer-encoding: chunked") (map to_lower t)
              then err chunked
              else ok (status, body)
        ]
      ]
    ]
  ]

  -- The head of a request.
  unfoldable pub head_of : Device → Text → Text → Bytes → Bytes
  head_of d method path body =
      utf8 method
      ++ (utf8 (text " ")
          ++ (utf8 path
              ++ (utf8 (text " HTTP/1.1\r\nHost: ")
                  ++ (utf8 (n.show_addr d.addr)
                      ++ (utf8 (text "\r\nAuthorization: Bearer ")
                          ++ (utf8 d.capability
                              ++ (utf8
                                    (text "\r\nContent-Type: application/json\r\nContent-Length: ")
                                  ++ (decimal (length body)
                                      ++ utf8 (text "\r\nConnection: close\r\n\r\n")))))))))

  unfoldable pub valid_path : Text → Bool
  valid_path path =
      starts_with (text "/api/") path && not (any (λ b. leb b 32 || b == 127) (utf8 path))

  -- The answer, and what was sent.
  unfoldable pub call : Device → Text → Text → Bytes → Result Error (ℕ × Bytes) × List Sent
  call d method path body =
      if not (valid_path path)
      then (err bad_path, [])
      else let bytes = head_of d method path body ++ body in
        (
          elim (n.exchange d.addr bytes) [
            | none ↦ err unreachable
            | some raw ↦ if ltb max_response (length raw) then err too_large else parse_response raw
          ],
          record { addr = d.addr; bytes = bytes } ∷ [],
        )

-- What a relayed request comes to: the reply of the device, or a status and why.
pub data Relayed (Json : Type 0) : Type 0 where
  reply : Json → Relayed Json
  unknown_device unreachable_device invalid_reply : Relayed Json
  refused : ℕ → Relayed Json
  forbidden_stop invalid_session unencodable : Relayed Json

abbrev pub is_remote_id : Text → Bool
is_remote_id id =
    not (is_empty id)
    && leb (length (utf8 id)) 64
    && all (λ b. is_ascii_alphanumeric b || b == 45) (utf8 id)

unfoldable pub find_device : Text → List Device → Option Device
find_device id [] = none
find_device id (d ∷ ds) = let rest = find_device id ds in if list_eq d.id id then some d else rest

module _ {Json : Type 0} (n : Network) (from_slice : Bytes → Option Json)
    (to_vec : Operation → Option Bytes) where
  -- `StatusCode::from_u16(status).unwrap_or(BAD_GATEWAY)`
  abbrev pub status_code : ℕ → ℕ
  status_code status = if leb 100 status && leb status 999 then status else 502

  abbrev pub relayed : Result Error (ℕ × Bytes) → Relayed Json
  relayed (err e) = unreachable_device
  relayed (ok (status, bytes)) =
      if not (status == 200)
      then refused (status_code status)
      else elim (from_slice bytes) [ none ↦ invalid_reply | some v ↦ reply v ]

  unfoldable pub relay : List Device → Text → Text → Text → Bytes → Relayed Json × List Sent
  relay devices device method path body = elim (find_device device devices) [
    | none ↦ (unknown_device, [])
    | some d ↦ let (answer, sent) = call n d method path body in (relayed answer, sent)
  ]

  unfoldable pub remote_create : List Device → Text → Relayed Json × List Sent
  remote_create devices device =
      relay devices device (text "POST") (text "/api/sessions") (utf8 (text "{}"))

  unfoldable pub remote_operation :
      Bool → List Device → Text → Text → Operation → Relayed Json × List Sent
  remote_operation attach_only devices device id op =
      if attach_only && is_stop op
      then (forbidden_stop, [])
      else if not (is_remote_id id)
      then (invalid_session, [])
      else elim (to_vec op) [
        | none ↦ (unencodable, [])
        | some body ↦ relay devices device (text "POST") (text "/api/sessions/" ++ id) body
      ]
