-- ===== src/ToolBroker/Tests.antt =====
-- A broker of one run, its calls, and the theorems about brokers at them.
use agentmixer.Prelude.{
  ℕ, ◌≤◌, String, ◌≡◌, refl, Bool, true, false, Option, none, some, List, [], ◌∷◌, All, length, leb,
  ◌&&◌,
}
use agentmixer.Prelude.Result.{Result, ok}
use agentmixer.Validation.{checks}
use agentmixer.Validation.Data.{Value, string, null, object, plain, enumerable, Fields, end, field}
use agentmixer.ToolBroker.Paths.{
  Url, parts, has_backslash, char_count, ends_with, is_part, is_part_tail, relative_file,
}
use agentmixer.ToolBroker.Scope.{
  Action, calling, revoking, step, run, Belongs, run_scoped, revoked_silent,
}
use agentmixer.ToolBroker.Confined.{IsBelow, relative_file_confined}
use agentmixer.ToolBroker.{
  Effect, writing, ToolBroker, World, Moments, invoke, dispatch, handle, write_file,
}

brokers : Unit {0}
unfolding checks parts has_backslash char_count ends_with is_part is_part_tail relative_file step
    run invoke dispatch handle write_file
brokers = tt

abbrev is_small_letter : ℕ → Bool
is_small_letter c = leb b'a' c && leb c b'z'

abbrev host : Effect → Result Fields
host effect = ok (field "revision" enumerable (string "r1") end)

abbrev same_value : Value → Option Value
same_value v = some v

abbrev no_url : String → Option Url
no_url s = none

abbrev same_text : String → String
same_text s = s

abbrev broker : ToolBroker
broker = record { workspace_id = "contact"; run_id = "run-1"; tools = "files.write" ∷ [] }

abbrev idle : World
idle = record { revoked = false; effects = [] }

abbrev open_moments : Moments
open_moments = record { before = true; staged = true; after = true }

abbrev write_to : String → Action
write_to path = calling open_moments (string "files.write") (
    object plain (
      field "path" enumerable (string path)
        (field "text" enumerable (string "hi") (field "expectedRevision" enumerable null end))))

abbrev calls : List Action
calls = write_to "notes/a" ∷ write_to "../b" ∷ revoking ∷ write_to "c" ∷ []

write_run :
    (run host same_value is_small_letter no_url same_text broker calls idle).effects
    ≡ writing "contact" "notes/a" "hi" none ∷ []
unfolding brokers
write_run = refl

run_scoped_example :
    All
      (Belongs host same_value is_small_letter no_url same_text broker)
      (run host same_value is_small_letter no_url same_text broker calls idle).effects
run_scoped_example =
    run_scoped host same_value is_small_letter no_url same_text broker calls idle tt

abbrev closed : World
closed = record { revoked = true; effects = [] }

revoked_silent_example :
    run host same_value is_small_letter no_url same_text broker calls closed ≡ closed
revoked_silent_example =
    revoked_silent host same_value is_small_letter no_url same_text broker calls closed refl

relative_file_confined_example :
    All IsBelow (parts "notes/a")
    × (length (parts "notes/a") ≤ 8)
    × (has_backslash "notes/a" ≡ false)
relative_file_confined_example =
    relative_file_confined is_small_letter (string "notes/a") "notes/a" (unfold brokers in refl)
