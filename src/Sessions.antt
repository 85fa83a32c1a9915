-- ===== src/Sessions.antt =====
-- The key of a session with the controller: `normalizeControllerIntakeSessionKey` of
-- src/src/controller/http-server.ts with `buildTeamClawAgentSessionKey` of
-- src/src/openclaw-workspace.ts. Whether the agent runs isolated is an argument.
pub mod Again
use teamclaw.Prelude.{
  ℕ, zero, suc, Bool, true, false, ◌&&◌, ◌||◌, not, Option, none, some, List, [], ◌∷◌, ◌++◌, leb,
  ltb, ◌==◌, if◌then◌else◌, length, all, Text, codes, text_eq, lower, is_space, starts_with, drop,
  trim, is_some,
}

abbrev pub session_prefix : Text
session_prefix = codes "teamclaw-controller-web:"

abbrev pub default_session : Text
default_session = codes "teamclaw-controller-web:default"

-- [a-zA-Z0-9:_-]
abbrev pub is_session_code : ℕ → Bool
is_session_code c =
    leb b'a' c && leb c b'z'
    || leb b'A' c && leb c b'Z'
    || leb b'0' c && leb c b'9'
    || c == b':'
    || c == b'_'
    || c == b'-'

-- /^[a-zA-Z0-9:_-]{1,120}$/
unfoldable pub is_session_text : Text → Bool
is_session_text s = leb 1 (length s) && leb (length s) 120 && all is_session_code s

-- What stands after the first ":", when some text stands before it.
unfoldable pub after_colon : Bool → Text → Option Text
after_colon some_before [] = none
after_colon some_before (c ∷ s) =
    let rest = after_colon true s in
    if c == b':' then (if some_before then some s else none) else rest

-- s.match(/^agent:[^:]+:(teamclaw-controller-web:[a-zA-Z0-9:_-]{1,120})$/)?.[1]
abbrev pub if_runtime : Option Text → Option Text
if_runtime none = none
if_runtime (some s) =
    if starts_with s session_prefix && is_session_text (drop (length session_prefix) s)
    then some s
    else none

unfoldable pub runtime_key : Text → Option Text
unfolding after_colon is_session_text starts_with
runtime_key s =
    if starts_with s (codes "agent:") then if_runtime (after_colon false (drop 6 s)) else none

-- trimmed.match(/^agent:[^:]+:(.+)$/i)?.[1]
abbrev pub if_some_text : Option Text → Option Text
if_some_text none = none
if_some_text (some []) = none
if_some_text (some (c ∷ s)) = some (c ∷ s)

unfoldable pub agent_key : Text → Option Text
unfolding after_colon starts_with
agent_key s =
    if starts_with (lower s) (codes "agent:")
    then if_some_text (after_colon false (drop 6 s))
    else none

abbrev pub text_or : Option Text → Text → Text
text_or none s = s
text_or (some t) s = t

abbrev pub unless_blank : Text → Text → Text
unless_blank [] other = other
unless_blank (c ∷ s) other = c ∷ s

-- `buildTeamClawAgentSessionKey`
unfoldable pub agent_session_key : Bool → Text → Text
unfolding agent_key trim
agent_session_key isolated input =
    let key =
      unless_blank (lower (trim (text_or (agent_key (trim input)) (trim input)))) (codes "main") in
    if isolated then codes "agent:teamclaw:" ++ key else key

-- The key of a trimmed text, with the logical key in it when it is one of the agent's own.
unfoldable pub key_of : Bool → Text → Option Text → Text
unfolding is_session_text starts_with agent_session_key text_eq
key_of isolated trimmed runtime =
    let logical = text_or runtime trimmed in
    if text_eq trimmed []
      || (starts_with trimmed (codes "agent:") && not (is_some runtime))
      || not (is_session_text logical)
    then default_session
    else agent_session_key isolated
        (if starts_with logical session_prefix then logical else session_prefix ++ logical)

-- `normalizeControllerIntakeSessionKey`, for a text.
unfoldable pub session_key : Bool → Text → Text
unfolding trim runtime_key key_of
session_key isolated input = key_of isolated (trim input) (runtime_key (trim input))
