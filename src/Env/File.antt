-- ===== src/Env/File.antt =====
-- `load_env`: the `KEY=value` lines of a file. smoke_lib.py has a copy of it.
use hermes_agent_runtime.Base.{
  ◌||◌, String, Option, none, some, List, [], ◌∷◌, ◌==◌, string_eq, if◌then◌else◌, eqb,
}
use hermes_agent_runtime.Base.Dict.{Dict, insert}
use hermes_agent_runtime.Base.Result.{ok, err}
use hermes_agent_runtime.Base.Strip.{strip, strip_by, splitlines, split_once, begins_with}
use hermes_agent_runtime.Runtime.Exceptions.{Call}

-- `value.strip().strip('"').strip("'")`
unfoldable pub unquote : String → String
unfolding strip strip_by
unquote value = strip_by (λ c. eqb c 39) (strip_by (λ c. eqb c 34) (strip value))

abbrev pub clean : Option (String × String) → Option (String × String)
clean none = none
clean (some (key, value)) = some (strip key, unquote value)

-- What a line sets, if it sets anything
unfoldable pub load_line : String → Option (String × String)
unfolding strip unquote split_once
load_line raw =
    let line = strip raw in
    if line == "" || begins_with b'#' line then none else clean (split_once b'=' line)

abbrev pub put : Option (String × String) → Dict String → Dict String
put none out = out
put (some (key, value)) out = insert key value out

unfoldable pub load_lines : List String → Dict String → Dict String
unfolding load_line insert
load_lines [] out = out
load_lines (raw ∷ lines) out = load_lines lines (put (load_line raw) out)

-- `load_env`, on the text of the file
unfoldable pub parse_env : String → Dict String
unfolding splitlines load_lines
parse_env contents = load_lines (splitlines contents) []

-- `path.read_text()`, which may raise
abbrev pub Files : Type 0
Files = String → Call String

abbrev pub read : Call String → Call (Dict String)
unfolding parse_env
read (ok contents) = ok (parse_env contents)
read (err e) = err e

unfoldable pub load_env : Files → String → Call (Dict String)
unfolding parse_env
load_env files path = read (files path)
