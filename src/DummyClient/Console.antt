-- ===== src/DummyClient/Console.antt =====
-- crates/dummy_client/src/keyboard.rs: the keys of the player, and the output of a raw terminal.
pub mod Lines
pub mod Keys
use rust_gameserver.Base.{
  ℕ, Bool, true, false, ◌||◌, List, [], ◌∷◌, ◌++◌, Option, none, some, Bytes, ◌==◌, if◌then◌else◌,
}

-- `split_inclusive` at line feeds: every piece but the last ends with one.
unfoldable pub split_inclusive : Bytes → List Bytes
split_inclusive [] = []
split_inclusive (c ∷ s) =
    let rest = split_inclusive s in
    if c == b'\n'
    then (c ∷ []) ∷ rest
    else elim rest [ [] ↦ (c ∷ []) ∷ [] | ◌∷◌ line more ↦ (c ∷ line) ∷ more ]

abbrev cons_some : ℕ → Option Bytes → Option Bytes
cons_some c none = none
cons_some c (some s) = some (c ∷ s)

-- `strip_suffix(b"\n")`
unfoldable pub strip_newline : Bytes → Option Bytes
strip_newline [] = none
strip_newline (c ∷ []) = if c == b'\n' then some [] else none
strip_newline (c ∷ d ∷ s) = cons_some c (strip_newline (d ∷ s))

abbrev write_line : Bytes → Option Bytes → Bytes
write_line chunk (some line) = line ++ b'\r' ∷ b'\n' ∷ []
write_line chunk none = chunk

abbrev write_chunks : List Bytes → Bytes
write_chunks [] = []
write_chunks (chunk ∷ chunks) = write_line chunk (strip_newline chunk) ++ write_chunks chunks

-- What `CrLfStdout` writes to the terminal.
unfoldable pub write : Bytes → Bytes
unfolding split_inclusive strip_newline
write buf = write_chunks (split_inclusive buf)
