-- ===== src/DummyClient/Console/Keys.antt =====
-- The keys of the player, `spawn` of crates/dummy_client/src/keyboard.rs: the thread that turns key
-- events into moves. A coordinate is -1, 0 or 1, of which the source takes the `f32`.
use rust_gameserver.Base.{
  ℕ, ◌≡◌, refl, Bool, true, false, ◌||◌, ◌&&◌, List, [], ◌∷◌, ◌==◌, if◌then◌else◌,
}
use rust_gameserver.Proto.{ℤ, pos, negsuc}

-- The codes that the source tells apart.
pub data KeyCode : Type 0 where
  up down left right : KeyCode
  char : ℕ → KeyCode
  other_key : KeyCode

pub data Action : Type 0 where
  move_by : (dx dy : ℤ) → Action
  quit ignore : Action

abbrev letter : ℕ → ℕ → ℕ → Bool
letter lower upper c = (c == lower) || (c == upper)

unfoldable pub action : KeyCode → (control : Bool) → Action
action up control = move_by (pos 0) (negsuc 0)
action down control = move_by (pos 0) (pos 1)
action left control = move_by (negsuc 0) (pos 0)
action right control = move_by (pos 1) (pos 0)
action (char c) control =
    if letter b'w' b'W' c
    then move_by (pos 0) (negsuc 0)
    else if letter b's' b'S' c
    then move_by (pos 0) (pos 1)
    else if letter b'a' b'A' c
    then move_by (negsuc 0) (pos 0)
    else if letter b'd' b'D' c
    then move_by (pos 1) (pos 0)
    else if letter b'q' b'Q' c
    then quit
    else if (c == b'c') && control
    then quit
    else ignore
action other_key control = ignore

-- What the thread polls: no event or another event, an error, or a key; `press` is false for a
-- release or a repeat, and `taken` is false if the player's session is over.
pub data Poll : Type 0 where
  nothing failed : Poll
  key : (code : KeyCode) (control press taken : Bool) → Poll

-- The moves sent, and whether the shutdown token was cancelled.
pub record Trace : Type 0 where
  pub moves : List (ℤ × ℤ)
  pub cancelled : Bool

abbrev ends : Bool → Trace
ends cancelled = record { moves = []; cancelled = cancelled }

abbrev acts : Action → Bool → Trace → Trace
acts (move_by dx dy) true rest = record rest { moves = (dx, dy) ∷ rest.moves }
acts (move_by dx dy) false rest = ends false
acts quit taken rest = ends true
acts ignore taken rest = rest

unfoldable pub read_keys : List Poll → Trace
unfolding action
read_keys [] = ends false
read_keys (nothing ∷ ps) = read_keys ps
read_keys (failed ∷ ps) = ends false
read_keys (key code control press taken ∷ ps) =
    let rest = read_keys ps in if press then acts (action code control) taken rest else rest

-- The letters and the arrow keys do the same.
pub action-arrows :
    (c : Bool)
    → (action (char b'w') c ≡ action up c)
      × (action (char b's') c ≡ action down c)
      × (action (char b'a') c ≡ action left c)
      × (action (char b'd') c ≡ action right c)
unfolding action
action-arrows c = (refl, refl, refl, refl)
