-- ===== src/Contracts/Backfill.antt =====
-- Text helpers of src/src/interaction-contracts.ts, and the deliverables that it reads off a worker's
-- reply. A length is a number of code points.
use teamclaw.Prelude.{
  ℕ, zero, suc, String, Bool, true, false, ◌&&◌, ◌||◌, not, Option, none, some, List, [], ◌∷◌, map,
  filter, any, take, leb, ◌==◌, str_truthy, str_eq, str_trim, str_trim_end, str_take,
  str_skip_spaces, if◌then◌else◌, ◌<>◌, is_space, Text, codes, text_eq, lower, includes,
  starts_with,
}
use Prim.Native.Char.{code}
use teamclaw.Team.{Deliverable, DeliverableKind}

-- xs.map((entry) => entry.trim()).filter(Boolean)
unfoldable pub trimmed_texts : List String → List String
unfolding str_trim
trimmed_texts ss = filter (λ s. str_truthy s) (map str_trim ss)

unfoldable pub str_length : String → ℕ
str_length String.[] = 0
str_length (String.◌∷◌ c s) = suc (str_length s)

-- s.replace(/\s+/g, " "), after white space or not.
collapse_after : Bool → String → String
unfolding is_space
collapse_after blank String.[] = ""
collapse_after blank (String.◌∷◌ c s) =
    let rest = collapse_after (is_space (code c)) s in
    if not (is_space (code c)) then String.◌∷◌ c rest else if blank then rest else " " <> rest

-- `summarizeContractText`
unfoldable pub summarize : ℕ → String → String
unfolding collapse_after str_trim str_trim_end str_length
summarize max_chars s =
    let normalized = str_trim (collapse_after false s) in
    if leb (str_length normalized) max_chars
    then normalized
    else str_trim_end (str_take max_chars normalized) <> "…"

abbrev onto_first : String → List String → List String
onto_first c [] = c ∷ []
onto_first c (l ∷ ls) = (c <> l) ∷ ls

-- s.split("\n"); the callers drop the empty pieces that split(/\n+/) does not have.
lines : String → List String
lines String.[] = "" ∷ []
lines (String.◌∷◌ c s) =
    let rest = lines s in if code c == 10 then "" ∷ rest else onto_first (String.◌∷◌ c "") rest

-- line.replace(/^[-*]\s*/, "").trim()
unbulleted : String → String
unfolding str_trim str_skip_spaces
unbulleted String.[] = ""
unbulleted (String.◌∷◌ c s) =
    if code c == b'-' || code c == b'*'
    then str_trim (str_skip_spaces s)
    else str_trim (String.◌∷◌ c s)

meaningful_lines : String → List String
unfolding lines unbulleted
meaningful_lines s = filter (λ l. str_truthy l) (map unbulleted (lines s))

-- `firstMeaningfulLine`
unfoldable pub first_meaningful_line : String → String
unfolding meaningful_lines
first_meaningful_line s = elim (meaningful_lines s) [ [] ↦ "" | l ∷ ls ↦ l ]

-- Array.from(new Set(xs)), for the texts not seen before.
abbrev pub unique_after : List String → List String → List String
unique_after seen [] = []
unique_after seen (s ∷ ss) =
    let rest = unique_after (s ∷ seen) ss in if any (λ t. str_eq t s) seen then rest else s ∷ rest

abbrev pub unique : List String → List String
unique ss = unique_after [] ss

-- `extractQuestionOrBulletLines`
unfoldable pub bullet_lines : String → ℕ → (String → Bool) → List String
unfolding meaningful_lines summarize
bullet_lines s max_items matcher =
    take max_items (unique (map (summarize 220) (filter matcher (meaningful_lines s))))

-- /blocked|waiting|stuck|need/i
abbrev pub is_blocker : String → Bool
is_blocker s =
    any (λ w. includes (lower (codes s)) (codes w)) ("blocked" ∷ "waiting" ∷ "stuck" ∷ "need" ∷ [])

ends_with : Text → Text → Bool
ends_with [] p = text_eq [] p
ends_with (x ∷ s) p = text_eq (x ∷ s) p || ends_with s p

-- /\?$/
unfoldable pub is_question : String → Bool
unfolding ends_with text_eq
is_question s = ends_with (codes s) (b'?' ∷ [])

-- `buildDefaultHandoffSummary`
unfoldable pub default_handoff_summary : Option String → String → String
unfolding summarize
default_handoff_summary none reason = "Hand off the current task: " <> summarize 180 reason
default_handoff_summary (some role) reason =
    if str_truthy role
    then "Hand off the current task to " <> (role <> (": " <> summarize 180 reason))
    else "Hand off the current task: " <> summarize 180 reason

-- [A-Za-z0-9_-] and [A-Za-z0-9_./-]
abbrev is_name_code : ℕ → Bool
is_name_code c =
    leb b'0' c && leb c b'9'
    || leb b'a' c && leb c b'z'
    || leb b'A' c && leb c b'Z'
    || c == b'_'
    || c == b'-'

abbrev is_path_code : ℕ → Bool
is_path_code c = is_name_code c || c == b'.' || c == b'/'

take_codes : (ℕ → Bool) → String → String
take_codes p String.[] = ""
take_codes p (String.◌∷◌ c s) =
    let rest = take_codes p s in if p (code c) then String.◌∷◌ c rest else ""

-- What [A-Za-z0-9_./-]+\.[A-Za-z0-9_-]+ matches at the start of a run of path characters, after some
-- of them or none: the last point that a name follows ends the first part.
path_after : Bool → String → Option String
unfolding take_codes
path_after some_before String.[] = none
path_after some_before (String.◌∷◌ c s) = elim (path_after true s) [
  | some m ↦ some (String.◌∷◌ c m)
  | none ↦
      let name = take_codes is_name_code s in
      if some_before && code c == b'.' && str_truthy name then some (String.◌∷◌ c name) else none
]

path_at : String → Option String
unfolding path_after take_codes
path_at s = path_after false (take_codes is_path_code s)

-- The matches of a text whose next `n` characters belong to an earlier match.
paths_from : (ℕ → Bool) → ℕ → String → List String
unfolding path_at str_length
paths_from is_border n String.[] = []
paths_from is_border (suc n) (String.◌∷◌ c s) = paths_from is_border n s
paths_from is_border zero (String.◌∷◌ c s) = elim (if is_border (code c) then path_at s else none) [
  | some m ↦ m ∷ paths_from is_border (str_length m) s
  | none ↦ paths_from is_border zero s
]

-- Array.from(s.matchAll(/(?:^|[\s:(`])(…)/g)).map((match) => match[1])
unfoldable pub path_matches : String → List String
unfolding path_at paths_from str_length is_space
path_matches s =
    let is_border : ℕ → Bool = λ c. is_space c || c == b':' || c == b'(' || c == b'`' in
    elim (path_at s) [
      | some m ↦ m ∷ paths_from is_border (str_length m) s
      | none ↦ paths_from is_border zero s
    ]

abbrev forward_slash : String → String
forward_slash String.[] = ""
forward_slash (String.◌∷◌ c s) =
    let rest = forward_slash s in if code c == b'\\' then "/" <> rest else String.◌∷◌ c rest

-- The text before and after the last slash.
split_last : String → Option (String × String)
split_last String.[] = none
split_last (String.◌∷◌ c s) = elim (split_last s) [
  | some p ↦ some (String.◌∷◌ c p.0, p.1)
  | none ↦ if code c == b'/' then some ("", s) else none
]

unfoldable pub file_name : String → String
unfolding split_last
file_name path = elim (split_last (forward_slash path)) [ some p ↦ p.1 | none ↦ forward_slash path ]

unfoldable pub directory_name : String → String
unfolding split_last
directory_name path = elim (split_last (forward_slash path)) [ some p ↦ p.0 | none ↦ "." ]

-- `isWebHtmlPath`
unfoldable pub is_web_html_path : String → Bool
unfolding file_name ends_with
is_web_html_path path =
    let name = codes (file_name path) in
    (ends_with (lower name) (codes ".html") || ends_with (lower name) (codes ".htm"))
    && not (
        starts_with name (codes ".")
        || includes name (codes ".config.")
        || includes name (codes ".test.")
        || includes name (codes ".spec."))

abbrev web_html_filenames : List String
web_html_filenames = "index.html" ∷ "app.html" ∷ "main.html" ∷ "home.html" ∷ []

abbrev plain_deliverable : DeliverableKind → String → Option String → Deliverable
plain_deliverable kind value summary = record {
  kind = kind;
  value = value;
  summary = summary;
  artifact_type = none;
  preview_command = none;
  preview_cwd = none;
  preview_ready_path = none;
  live_url = none;
}

abbrev web_app : String → Deliverable
web_app dirname = record {
  kind = DeliverableKind.directory;
  value = dirname;
  summary = some ("Web application at " <> dirname);
  artifact_type = some "web-app";
  preview_command = some "npx -y serve -l {PORT}";
  preview_cwd = some dirname;
  preview_ready_path = some "/";
  live_url = none;
}

abbrev is_web_app_page : String → Bool
unfolding is_web_html_path file_name ends_with
is_web_app_page path =
    is_web_html_path path
    && (any (λ n. str_eq n (file_name path)) web_html_filenames
        || ends_with (lower (codes (file_name path))) (codes ".html"))

-- The loop of `inferResultDeliverables`; at most one page stands for a web application.
path_deliverables : Bool → List String → List Deliverable
unfolding is_web_app_page directory_name
path_deliverables inferred [] = []
path_deliverables inferred (path ∷ paths) =
    let is_page = not inferred && is_web_app_page path in
    let rest = path_deliverables (inferred || is_page) paths in
    if is_page
    then web_app (directory_name path) ∷ rest
    else plain_deliverable DeliverableKind.file path none ∷ rest

-- `inferResultDeliverables`, for an error that is not empty or none.
unfoldable pub inferred_deliverables : String → Option String → List Deliverable
unfolding path_matches path_deliverables summarize str_trim
inferred_deliverables result (some error) =
    plain_deliverable DeliverableKind.note error (some "Execution error surfaced by the worker.")
    ∷ []
inferred_deliverables result none =
    elim (path_deliverables false (take 5 (unique (path_matches result)))) [
      | d ∷ ds ↦ d ∷ ds
      | [] ↦
          if str_truthy (str_trim result)
          then plain_deliverable DeliverableKind.note (summarize 300 result)
              (some "Backfilled from the worker's final reply.")
            ∷ []
          else []
    ]
