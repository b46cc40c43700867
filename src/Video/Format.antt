-- ===== src/Video/Format.antt =====
-- format_change_struct and format_change_update of source/srthub.c. A text is the list of its bytes
-- without the closing NUL; an array of MAX_FORMAT_VALUE_SIZE characters keeps the first 47.
use opensrthub.Base.{
  ℕ, suc, Bool, true, false, ◌&&◌, Option, none, some, List, [], ◌∷◌, take, ltb, ◌==◌,
  if◌then◌else◌,
}

abbrev pub Text : Type 0
Text = List ℕ

-- strcmp(a, b) == 0
unfoldable pub same_text : Text → Text → Bool
same_text [] [] = true
same_text [] (y ∷ ys) = false
same_text (x ∷ xs) [] = false
same_text (x ∷ xs) (y ∷ ys) = x == y && same_text xs ys

abbrev pub max_value_size : ℕ
max_value_size = 48

abbrev pub change_frames : ℕ
change_frames = 2

abbrev pub unknown_text : Text
unknown_text = b'u' ∷ b'n' ∷ b'k' ∷ b'n' ∷ b'o' ∷ b'w' ∷ b'n' ∷ []

pub record Tracker : Type 0 where
  pub current : Text
  pub current_context : Text
  pub pending : Text
  pub pending_context : Text
  pub pending_count : ℕ

-- The parts of the message: the old value and its context, then the new ones.
pub record Change : Type 0 where
  pub from : Text
  pub from_context : Text
  pub to : Text
  pub to_context : Text

-- snprintf into an array of the tracker.
abbrev pub stored : Text → Text
stored t = take 47 t

abbrev pub is_empty : Text → Bool
is_empty [] = true
is_empty (x ∷ xs) = false

abbrev pub settle : Tracker → Tracker
settle t = record t { pending = []; pending_count = 0 }

-- A value that differs from the current one: counted if it is the pending one, else pending now.
unfoldable pub await : Text → Text → Tracker → Tracker
unfolding same_text
await value context t =
    if ltb 0 t.pending_count && same_text value t.pending
    then record t { pending_count = suc t.pending_count }
    else record t { pending = stored value; pending_context = stored context; pending_count = 1 }

-- Confirmed once it was seen often enough.
unfoldable pub confirm : Tracker → Option Change × Tracker
confirm t = if ltb t.pending_count change_frames then (none, t) else (
  some (record {
    from = t.current;
    from_context = t.current_context;
    to = t.pending;
    to_context = t.pending_context;
  }),
  settle (record t { current = stored t.pending; current_context = stored t.pending_context }),
)

-- `none` for the tracker's value is NULL; the result is the message where the function returns 1.
unfoldable pub format_change_update : Option Text → Text → Tracker → Option Change × Tracker
unfolding await confirm same_text
format_change_update none context t = (none, t)
format_change_update (some value) context t =
    if is_empty value
    then (none, t)
    else if same_text value unknown_text
    then (none, t)
    else if is_empty t.current
    then (none, settle (record t { current = stored value; current_context = stored context }))
    else if same_text value t.current
    then (none, settle t)
    else confirm (await value context t)
