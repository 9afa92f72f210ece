-- ===== src/Core/Presence/Tests.antt =====
-- The theorems about the presence of views at concrete inputs.
use dot_terminal.Prelude.{Text, text, arith}
use dot_terminal.Core.Presence.{Presence, nobody, hello}
use dot_terminal.Core.Presence.Views.{IsValid}
use dot_terminal.Core.Presence.Hello.{hello-IsValid}

abbrev phone : Text
phone = text "phone-01"

nobody-IsValid : IsValid nobody
nobody-IsValid = record { distinct = tt; few = omega arith; known = tt }

-- A view that was heard of at 5.
abbrev one_view : Presence
one_view = (hello nobody 5 phone (text "Ana") (text "phone")).0

one_view-IsValid : IsValid one_view
one_view-IsValid = hello-IsValid nobody 5 phone (text "Ana") (text "phone") nobody-IsValid
