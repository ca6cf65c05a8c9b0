-- ===== src/Logging.antt =====
-- internal/logging/logging.go: the filter of log lines, and the parts of a line of glog.
use Prim.Native.Char.{code}
use purelb.Base.{
  ℕ, ◌≡◌, refl, Bool, true, false, ◌&&◌, ◌||◌, List, [], ◌∷◌, String, Option, none, some, ltb, ◌==◌,
  nat_eq, string_eq, if◌then◌else◌,
}

-- An argument of Log: a text or another value.
pub data Value : Type 0 where
  text : String → Value
  value : Value

-- A line is dropped, handed on, or ends in a panic: an index out of range, or a value that is no text.
pub data LogOutcome : Type 0 where
  dropped passed no_message no_text : LogOutcome

unfoldable pub has_prefix : String → String → Bool
has_prefix String.[] s = true
has_prefix (String.◌∷◌ c cs) String.[] = false
has_prefix (String.◌∷◌ c cs) (String.◌∷◌ d ds) = (code c == code d) && has_prefix cs ds

-- strings.Contains
unfoldable pub contains_text : String → String → Bool
unfolding has_prefix
contains_text String.[] part = has_prefix part String.[]
contains_text (String.◌∷◌ c cs) part = has_prefix part (String.◌∷◌ c cs) || contains_text cs part

-- The message after the key "msg", if this is the key; `none` where the loop goes on.
unfoldable pub check_message : Value → List Value → Option LogOutcome
unfolding contains_text
check_message value rest = none
check_message (text key) [] = if key == "msg" then some no_message else none
check_message (text key) (value ∷ rest) = if key == "msg" then some no_text else none
check_message (text key) (text message ∷ rest) =
    if (key == "msg") && contains_text message "[DEBUG] memberlist: " then some dropped else none

-- filterLogger.Log
unfoldable pub log : List Value → LogOutcome
unfolding check_message
log [] = passed
log (arg ∷ args) =
    let rest = log args in elim (check_message arg args) [ none ↦ rest | some outcome ↦ outcome ]

pub record GlogLine : Type 0 where
  pub level : String
  pub caller : String
  pub msg : String

unfoldable pub level_of : String → String
level_of letter =
    if letter == "I"
    then "info"
    else if letter == "W"
    then "warn"
    else if (letter == "E") || (letter == "F")
    then "error"
    else "info"

-- deformat, given the length of the line in bytes and the groups 1, 8 and 9 of the match of logPrefix.
unfoldable pub deformat : ℕ → String → Option (String × String × String) → GlogLine
unfolding level_of
deformat bytes line groups =
    let plain : GlogLine = record { level = "info"; caller = ""; msg = line } in
    if ltb bytes 30 then plain else elim groups [
      | none ↦ plain
      | some g ↦ record { level = level_of g.0; caller = g.1; msg = g.2 }
    ]

dropped_line : log (text "op" ∷ text "msg" ∷ text "x [DEBUG] memberlist: y" ∷ value ∷ []) ≡ dropped
unfolding log
dropped_line = refl

-- The key at the end of a line has no message after it.
last_key : log (text "op" ∷ value ∷ text "msg" ∷ []) ≡ no_message
unfolding log
last_key = refl
