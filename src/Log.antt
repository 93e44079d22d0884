-- ===== src/Log.antt =====
-- `LogBuffer` of launch/process.rs: the bounded tail of the game's log. A text is a value of the
-- library's strings, and `to_text` and the export to a file are left out.
pub mod Tail
mod Tests
use rc_launcher.Base.{
  ℕ, ◌+◌, ◌-◌, String, Bool, true, false, List, [], ◌∷◌, ◌++◌, length, drop, map, ◌==◌,
  if◌then◌else◌,
}

pub data LogStream : Type 0 where
  stdout stderr : LogStream

pub record LogLine : Type 0 where
  pub stream : LogStream
  pub line_text : String

abbrev pub out_line : String → LogLine
out_line t = record { stream = stdout; line_text = t }

abbrev pub err_line : String → LogLine
err_line t = record { stream = stderr; line_text = t }

unfoldable pub is_error : LogLine → Bool
is_error l = elim (l.stream) [ stdout ↦ false | stderr ↦ true ]

abbrev pub default_log_capacity : ℕ
default_log_capacity = 2048

pub record LogBuffer : Type 0 where
  pub capacity : ℕ
  pub lines : List LogLine
  pub dropped : ℕ

-- A capacity of 0 stands for the default.
unfoldable pub new_log : ℕ → LogBuffer
new_log capacity = record {
  capacity = if capacity == 0 then default_log_capacity else capacity;
  lines = [];
  dropped = 0;
}

unfoldable pub push : LogBuffer → LogLine → LogBuffer
push b line =
    if length b.lines == b.capacity
    then record b { lines = drop 1 b.lines ++ line ∷ []; dropped = b.dropped + 1 }
    else record b { lines = b.lines ++ line ∷ [] }

unfoldable pub push_all : LogBuffer → List LogLine → LogBuffer
push_all b [] = b
push_all b (l ∷ ls) = push_all (push b l) ls

-- The last `n` lines.
unfoldable pub tail : LogBuffer → ℕ → List LogLine
tail b n = drop (length b.lines - n) b.lines

unfoldable pub texts : LogBuffer → List String
texts b = map (λ (l : LogLine). l.line_text) b.lines
