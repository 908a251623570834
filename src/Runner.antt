-- ===== src/Runner.antt =====
-- ProcessRunner and tailBuffer of internal/app/runner.go. A command is the lines that its two pipes
-- yield to the scanners and how its calls of `os/exec` end; both are arguments.
pub mod Tail
pub mod Pumps
pub mod Finish
use personal_yt_downloader.Common.{
  ℕ, ◌≤◌, ◌≡◌, String, Bool, true, false, Option, none, some, List, [], ◌∷◌, ◌++◌, leb, ltb,
  if◌then◌else◌, length,
}

pub record TailBuffer : Type 0 where
  pub lines : List String
  pub max : ℕ

-- `copy(t.lines, t.lines[1:])` and the store into the last place; none where that is out of range.
unfoldable pub shift_in : List String → String → Option (List String)
shift_in [] line = none
shift_in (l ∷ lines) line = some (lines ++ line ∷ [])

unfoldable pub kept_lines : TailBuffer → String → Option (List String)
unfolding shift_in
kept_lines t line =
    if leb t.max (length t.lines) then shift_in t.lines line else some (t.lines ++ line ∷ [])

-- None if the code panics.
unfoldable pub add : TailBuffer → String → Option TailBuffer
unfolding kept_lines
add t line = elim (kept_lines t line) [
  | none ↦ none
  | some lines ↦ some (record { lines = lines; max = t.max })
]

abbrev pub snapshot : TailBuffer → List String
snapshot t = t.lines

unfoldable pub tail_limit : ℕ → ℕ
tail_limit tail_lines = if ltb 0 tail_lines then tail_lines else 32

-- A reader: what its scanner still yields, and the line that it added to the tail and has not handed
-- to the callback yet.
pub record Pump : Type 0 where
  pub ahead : List String
  pub pending : Option String

-- The two readers, the tail, and the lines that the callback received, in their order.
pub record World : Type 0 where
  pub out : Pump
  pub err : Pump
  pub tail : TailBuffer
  pub emitted : List String

abbrev pub start : ℕ → List String → List String → World
start max out err = record {
  out = record { ahead = out; pending = none };
  err = record { ahead = err; pending = none };
  tail = record { lines = []; max = max };
  emitted = [];
}

-- One step of one reader: `tail.add`, or `emit`. Each holds its own lock, so that steps of the two
-- readers come in any order.
pub data Step : World → World → Type 0 where
  add_out :
      (l : String) (rest : List String) (err : Pump) (tail after : TailBuffer)
      (emitted : List String)
      → add tail l ≡ some after
      → Step
          (record {
            out = record { ahead = l ∷ rest; pending = none };
            err = err;
            tail = tail;
            emitted = emitted;
          })
          (record {
            out = record { ahead = rest; pending = some l };
            err = err;
            tail = after;
            emitted = emitted;
          })
  emit_out :
      (l : String) (rest : List String) (err : Pump) (tail : TailBuffer) (emitted : List String)
      → Step
          (record {
            out = record { ahead = rest; pending = some l };
            err = err;
            tail = tail;
            emitted = emitted;
          })
          (record {
            out = record { ahead = rest; pending = none };
            err = err;
            tail = tail;
            emitted = emitted ++ l ∷ [];
          })
  add_err :
      (l : String) (rest : List String) (out : Pump) (tail after : TailBuffer)
      (emitted : List String)
      → add tail l ≡ some after
      → Step
          (record {
            out = out;
            err = record { ahead = l ∷ rest; pending = none };
            tail = tail;
            emitted = emitted;
          })
          (record {
            out = out;
            err = record { ahead = rest; pending = some l };
            tail = after;
            emitted = emitted;
          })
  emit_err :
      (l : String) (rest : List String) (out : Pump) (tail : TailBuffer) (emitted : List String)
      → Step
          (record {
            out = out;
            err = record { ahead = rest; pending = some l };
            tail = tail;
            emitted = emitted;
          })
          (record {
            out = out;
            err = record { ahead = rest; pending = none };
            tail = tail;
            emitted = emitted ++ l ∷ [];
          })

pub data Reach : World → World → Type 0 where
  here : (w : World) → Reach w w
  then_step : (w v u : World) → Reach w v → Step v u → Reach w u

-- The pump has ended: the scanner yields no more, and nothing is left to hand on.
abbrev pub IsDone : Pump → Type 0
IsDone p = (p.ahead ≡ []) × (p.pending ≡ none)

-- How the calls of a run end: the pipes, the start, `cmd.Wait`, and the context of the caller.
pub record Exec : Type 0 where
  pub stdout_pipe : Option String
  pub stderr_pipe : Option String
  pub started : Option String
  pub waited : Option String
  pub parent_err : Option String

-- The second error unless there is a first.
abbrev pub or_else : Option String → Option String → Option String
or_else none e = e
or_else (some e) e' = some e

-- The error that Run returns, if any.
unfoldable pub run : Exec → Option String
run x =
    or_else x.stdout_pipe
      (or_else x.stderr_pipe (or_else x.started (or_else x.parent_err x.waited)))
