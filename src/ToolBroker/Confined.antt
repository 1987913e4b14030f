-- ===== src/ToolBroker/Confined.antt =====
-- A path that `relativeFile` of src/broker.ts lets through stays in its workspace.
use agentmixer.Prelude.{
  ℕ, ◌≤◌, String, ◌≡◌, ◌≢◌, Bool, true, false, not, ◌&&◌, List, [], ◌∷◌, arith, all, length, leb,
  All, eq_iff,
}
use agentmixer.Prelude.Result.{ok, require, after_ok, ok_injective}
use mathlib.Core.Path.{subst}
use agentmixer.Validation.Data.{Value}
use agentmixer.Validation.{bounded_text}
use agentmixer.ToolBroker.Paths.{parts, has_backslash, is_part, relative_file}

-- a part that names an entry below its directory
pub record IsBelow (part : String) : Type 0 where
  pub not_empty : part ≢ ""
  pub not_here : part ≢ "."
  pub not_above : part ≢ ".."

module _ (is_letter : ℕ → Bool) where
  is_part_lem : (part : String) → is_part is_letter part ≡ true → IsBelow part
  unfolding is_part
  is_part_lem String.[] h = cc
  is_part_lem (String.◌∷◌ c s) h =
      let whole : String = String.◌∷◌ c s in
      record {
        not_empty = λ e. cc;
        not_here = λ e. ground (arith, eq_iff (String.◌∷◌ c s) ".");
        not_above = λ e. ground (arith, eq_iff (String.◌∷◌ c s) "..");
      }

  all_parts : (ps : List String) → all (is_part is_letter) ps ≡ true → All IsBelow ps
  all_parts [] h = tt
  all_parts (p ∷ ps) h = (is_part_lem p (ground arith), all_parts ps (ground arith))

  -- A path that is let through has at most eight parts between its slashes and no backslash, and
  -- each part is a name: none is empty, so the path is not absolute, and none is "." or "..".
  pub relative_file_confined :
      (v : Value) (path : String)
      → relative_file is_letter v ≡ ok path
      → All IsBelow (parts path) × (length (parts path) ≤ 8) × (has_backslash path ≡ false)
  unfolding relative_file
  relative_file_confined v path h = after_ok (bounded_text v 1024 false) _ h λ text text_ok h.
      after_ok
        (require
          (leb (length (parts text)) 8
            && not (has_backslash text)
            && all (is_part is_letter) (parts text))
          "PATH_OUTSIDE_WORKSPACE")
        _ h
        λ u checked last.
          subst
            (λ (p : String).
              All IsBelow (parts p) × (length (parts p) ≤ 8) × (has_backslash p ≡ false))
            (ok_injective last) (all_parts (parts text) (ground arith), ground arith, ground arith)
