-- ===== src/Terminal/History.antt =====
-- The bounded output history of a terminal session: `_append_output_history` of
-- services/terminal_sessions.py.
pub mod Window
use portex.Common.{
  ℕ, zero, suc, ◌+◌, ◌-◌, Bool, true, false, ◌&&◌, ◌||◌, List, [], ◌∷◌, ◌++◌, ltb, leb,
  if◌then◌else◌,
}
use portex.Text.{Text, is_empty}

-- The bytes of one code point in UTF-8; `errors="ignore"` drops a lone surrogate.
unfoldable pub utf8_width : ℕ → ℕ
utf8_width c =
    if ltb c 0x80
    then 1
    else if ltb c 0x800
    then 2
    else if leb 0xd800 c && leb c 0xdfff
    then 0
    else if ltb c 0x10000
    then 3
    else 4

-- `len(chunk.encode("utf-8", errors="ignore"))`
unfoldable pub utf8_length : Text → ℕ
utf8_length [] = 0
utf8_length (c ∷ r) = utf8_width c + utf8_length r

pub record History : Type 0 where
  pub chunks : List Text
  pub bytes : ℕ
  pub truncated : Bool

abbrev pub empty_history : History
empty_history = record { chunks = []; bytes = 0; truncated = false }

-- The `while` loop: `popleft` until the bytes fit. The difference stops at 0, which is what the
-- code's last test makes of a negative one.
unfoldable pub trim : ℕ → List Text → ℕ → Bool → History
trim max_bytes [] bytes truncated = record { chunks = []; bytes = bytes; truncated = truncated }
trim max_bytes (removed ∷ chunks) bytes truncated =
    let rest = trim max_bytes chunks (bytes - utf8_length removed) true in
    if ltb max_bytes bytes
    then rest
    else record { chunks = removed ∷ chunks; bytes = bytes; truncated = truncated }

unfoldable pub append_output_history : ℕ → History → Text → History
append_output_history max_bytes h chunk =
    if leb max_bytes 0 || is_empty chunk
    then (if leb max_bytes 0 then record h { chunks = []; bytes = 0 } else h)
    else if leb (utf8_length chunk) 0
    then h
    else trim max_bytes (h.chunks ++ chunk ∷ []) (h.bytes + utf8_length chunk) h.truncated
