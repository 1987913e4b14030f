-- ===== src/ManagedAccount/Usages.antt =====
-- src/managed-account.ts: `parseUsage`, the check on what the usage reader replies.
use agentmixer.Prelude.{
  ℕ, suc, ◌+◌, ◌*◌, ◌^◌, String, Bool, true, false, not, ◌&&◌, Option, none, some, List, [], ◌∷◌,
  leb, nat_eq, if◌then◌else◌,
}
use agentmixer.Prelude.Result.{Result, ok, err, require, ◌>>=◌, ◌>>◌}
use agentmixer.Validation.Data.{
  Value, undefined, null, number, string, array, Number, finite, infinite, nan, Fields, Items, nil,
  hole, item, get, is_nullish,
}
use agentmixer.Validation.{safe_integer, max_safe_integer}
use agentmixer.Validation.Digest.{matches_digest}
use agentmixer.ManagedAccount.Data.{Binding, UsageWindow, Usage}
use agentmixer.ManagedAccount.Parsing.{record_of, clean_text, nullable_text}

-- the window's percentage: `Number.isFinite(n) && n >= 0 && n <= 100`
abbrev is_percentage : Number → Bool
is_percentage (finite negative mantissa shift) =
    not (negative && not (nat_eq mantissa 0)) && leb mantissa (100 * 2 ^ shift)
is_percentage (infinite negative) = false
is_percentage nan = false

unfoldable pub used_percent_of : Value → Result (Option Number)
used_percent_of undefined = ok none
used_percent_of null = ok none
used_percent_of (number n) = if is_percentage n then ok (some n) else err "INVALID_USAGE_WINDOW"
used_percent_of _ = err "INVALID_USAGE_WINDOW"

abbrev checked_time : Bool → Value → Result (Option ℕ)
checked_time true value = ok none
checked_time false value = do t ← safe_integer value 0 max_safe_integer; ok (some t)

abbrev resets_at_of : Value → Result (Option ℕ)
resets_at_of value = checked_time (is_nullish value) value

abbrev digest_of : Value → Result String
digest_of (string s) = if matches_digest s then ok s else err "INVALID_USAGE_DIGEST"
digest_of _ = err "INVALID_USAGE_DIGEST"

abbrev items_of : Value → Result Items
items_of (array proto items) = ok items
items_of _ = err "INVALID_USAGE_WINDOWS"

-- `Array.prototype.length`
unfoldable pub item_count : Items → ℕ
item_count nil = 0
item_count (hole items) = suc (item_count items)
item_count (item attr v items) = suc (item_count items)

module _ (is_control : ℕ → Bool) where
  abbrev parsed_window : Fields → Result UsageWindow
  parsed_window window = do
    label ← clean_text is_control (get window "label") 128
    used_percent ← used_percent_of (get window "usedPercent")
    resets_at ← resets_at_of (get window "resetsAt")
    ok (record { label = label; used_percent = used_percent; resets_at = resets_at })

  -- `rawWindows.map(…)`; a hole has no window
  unfoldable pub parse_windows : Items → Result (List UsageWindow)
  unfolding clean_text record_of used_percent_of
  parse_windows nil = ok []
  parse_windows (hole items) = parse_windows items
  parse_windows (item attr v items) =
      let others = parse_windows items in
      do fields ← record_of v; window ← parsed_window fields; rest ← others; ok (window ∷ rest)

  -- `parseUsage`
  unfoldable pub parse_usage : Fields → Binding → (deadline : ℕ) → Result Usage
  unfolding clean_text parse_windows item_count
  parse_usage raw binding deadline = do
    observed_at ← safe_integer (get raw "observedAt") 0 max_safe_integer
    require (leb observed_at (deadline + 120_000)) "MANAGED_USAGE_FUTURE"
    plan_label ← nullable_text is_control (get raw "planLabel") 128
    items ← items_of (get raw "windows")
    require (leb (item_count items) 16) "INVALID_USAGE_WINDOWS"
    windows ← parse_windows items
    raw_sha256 ← digest_of (get raw "rawSha256")
    ok (record {
      binding = binding;
      observed_at = observed_at;
      plan_label = plan_label;
      windows = windows;
      raw_sha256 = raw_sha256;
    })
