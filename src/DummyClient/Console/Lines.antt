-- ===== src/DummyClient/Console/Lines.antt =====
-- What the raw terminal of crates/dummy_client/src/keyboard.rs shows.
use rust_gameserver.Base.{
  ℕ, ◌≡◌, refl, inl, inr, ◌∙◌, false, List, [], ◌∷◌, ◌++◌, Option, none, some, Bytes, arith, ◌==◌,
  Bool-cases, if◌then◌else◌, ap,
}
use rust_gameserver.DummyClient.Console.{
  split_inclusive, strip_newline, write, write_chunks, write_line, cons_some,
}

-- A carriage return before every line feed.
pub expand : Bytes → Bytes
expand [] = []
expand (c ∷ s) = if c == b'\n' then b'\r' ∷ b'\n' ∷ expand s else c ∷ expand s

abbrev prepend : ℕ → List Bytes → List Bytes
prepend c [] = (c ∷ []) ∷ []
prepend c (line ∷ more) = (c ∷ line) ∷ more

split-newline :
    (c : ℕ) (s : Bytes) → c ≡ b'\n' → split_inclusive (c ∷ s) ≡ (c ∷ []) ∷ split_inclusive s
unfolding split_inclusive
split-newline c s e = ground arith

split-other :
    (c : ℕ) (s : Bytes)
    → (c == b'\n') ≡ false
    → split_inclusive (c ∷ s) ≡ prepend c (split_inclusive s)
unfolding split_inclusive
split-other c s e = ground arith

write_line-cons :
    (c : ℕ) (chunk more : Bytes) (o : Option Bytes)
    → write_line (c ∷ chunk) (cons_some c o) ++ more ≡ c ∷ (write_line chunk o ++ more)
write_line-cons c chunk more none = refl
write_line-cons c chunk more (some line) = refl

write_chunks-prepend :
    (c : ℕ) (ls : List Bytes)
    → (c == b'\n') ≡ false
    → write_chunks (prepend c ls) ≡ c ∷ write_chunks ls
unfolding strip_newline
write_chunks-prepend c [] e = ground arith
write_chunks-prepend c ([] ∷ more) e = rw e refl
write_chunks-prepend c ((d ∷ line) ∷ more) e =
    write_line-cons c (d ∷ line) (write_chunks more) (strip_newline (d ∷ line))

write_chunks-newline :
    (ls : List Bytes) → write_chunks ((b'\n' ∷ []) ∷ ls) ≡ b'\r' ∷ b'\n' ∷ write_chunks ls
unfolding strip_newline
write_chunks-newline ls = refl

-- The terminal is sent the text with a carriage return before every line feed, and nothing else is
-- changed.
pub write_lem : (buf : Bytes) → write buf ≡ expand buf
unfolding write expand
write_lem [] = refl
write_lem (c ∷ s) = elim (Bool-cases (c == b'\n')) [
  | inl e ↦
      let i : c ≡ b'\n' = ground arith in
      rw (split-newline c s i, i)
        (write_chunks-newline (split_inclusive s) ∙ ap (λ q. b'\r' ∷ b'\n' ∷ q) (write_lem s))
  | inr e ↦
      rw (split-other c s e)
        (write_chunks-prepend c (split_inclusive s) e ∙ ap (λ q. c ∷ q) (write_lem s) ∙ rw e refl)
]
