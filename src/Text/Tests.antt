-- ===== src/Text/Tests.antt =====
-- Examples of the escaping of text.
use pifire_c.Common.{◌≡◌, arith, [], ◌∷◌, some, suc, length}
use pifire_c.Text.{Bytes, json_escape}
use pifire_c.Text.Escape.{read_string, read_string-json_escape}

-- an `a`, a quote, a backslash and a tab
abbrev awkward : Bytes
awkward = b'a' ∷ b'"' ∷ b'\\' ∷ 9 ∷ []

read_string-json_escape_example :
    read_string (suc (length awkward)) (json_escape awkward 40) ≡ some awkward
read_string-json_escape_example = read_string-json_escape awkward 40 (omega arith)
