-- ===== src/Controller/Token.antt =====
-- src/controller/helpers.ts: `safeToken` and `trimSlash`, the names of branches and worktrees.
use Prim.Native.String as Str
use Prim.Native.Char.{code}
use herdr_harness_lite.Base.{
  String, ℕ, Bool, suc, if◌then◌else◌, false, leb, ◌-◌, zero, true, ◌==◌, ◌&&◌, string_eq, nat_eq,
  ◌||◌, option_eq,
}
use herdr_harness_lite.Base.Text.{text_length, ◌<>◌}
use herdr_harness_lite.Model.Issue.{issue_state_eq}

abbrev is_token_char : ℕ → Bool
is_token_char c =
    leb b'a' c && leb c b'z'
    || leb b'A' c && leb c b'Z'
    || leb b'0' c && leb c b'9'
    || c == b'.'
    || c == b'_'
    || c == b'-'

-- `replace(/[^a-zA-Z0-9._-]+/g, "-")`, within a run of other characters or not.
unfoldable pub dashed : Bool → String → String
dashed in_run Str.[] = ""
dashed in_run (Str.◌∷◌ c s) =
    let after_char = dashed false s in
    let after_other = dashed true s in
    if is_token_char (code c)
    then Str.◌∷◌ c after_char
    else if in_run
    then after_other
    else "-" <> after_other

-- The text without the given characters at its start, and at its end.
unfoldable pub trim_start : ℕ → String → String
trim_start n Str.[] = ""
trim_start n (Str.◌∷◌ c s) = let rest = trim_start n s in if code c == n then rest else Str.◌∷◌ c s

unfoldable pub trim_end : ℕ → String → String
trim_end n Str.[] = ""
trim_end n (Str.◌∷◌ c s) =
    let rest = trim_end n s in if code c == n && rest == "" then "" else Str.◌∷◌ c rest

unfoldable pub safe_token : String → String
unfolding dashed trim_start trim_end
safe_token value =
    let normalized = trim_end b'-' (trim_start b'-' (dashed false value)) in
    if normalized == "" then "job" else normalized

-- `value.replace(/\/+$/g, "")`
unfoldable pub trim_slash : String → String
unfolding trim_end
trim_slash value = trim_end b'/' value

-- The text after its first `n` code units, on a text in the basic plane.
unfoldable pub drop_units : ℕ → String → String
drop_units zero s = s
drop_units (suc n) Str.[] = ""
drop_units (suc n) (Str.◌∷◌ c s) = drop_units n s

-- `safeToken(id).slice(-10)`
unfoldable pub token_suffix : String → String
unfolding safe_token drop_units text_length
token_suffix id = let token = safe_token id in drop_units (text_length token - 10) token
