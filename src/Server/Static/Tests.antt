-- ===== src/Server/Static/Tests.antt =====
-- A folder with one file, and requests that try to leave it.
use webpipe.Base.{
  ℕ, String, Bool, false, Option, none, some, List, [], ◌∷◌, ◌≡◌, refl, ◌==◌, if◌then◌else◌,
}
use webpipe.Base.Text.{format, split, starts_with, strip_prefix, trim_start_matches, behind_last}
use webpipe.Middleware.RateLimit.{eq_ignore_case, strip_suffix}
use webpipe.Server.Static.{
  PathBuf, normal, components, inner_components, join, is_under, extension, file_name, type_of,
  guess_content_type, normalize_static_path, try_serve_static,
}
use webpipe.Server.Static.Inside.{try_serve_static_inside}
use webpipe.Server.Static.Walk.{place, Beyond}

abbrev public_dir : PathBuf
public_dir = normal "public" ∷ []

-- One request that `percent_decode_str` changes.
abbrev decode : String → Option String
decode s = some (if s == "/%2e%2e/secret" then "/../secret" else s)

abbrev unresolved : PathBuf → Option PathBuf
unresolved p = none

abbrev at_css : PathBuf → Option (List ℕ)
at_css (normal a ∷ normal b ∷ normal c ∷ []) =
    if a == "public"
    then if b == "css" then if c == "a.CSS" then some (7 ∷ []) else none else none
    else none
at_css p = none

abbrev nothing_exists : PathBuf → Bool
nothing_exists p = false

traversal_blocked : normalize_static_path unresolved public_dir decode "/%2e%2e/secret" ≡ none
unfolding normalize_static_path components inner_components join is_under trim_start_matches
    starts_with strip_prefix split
traversal_blocked = refl

style_served :
    try_serve_static decode unresolved nothing_exists at_css public_dir "//css/./a.CSS"
    ≡ some (7 ∷ [], "text/css; charset=utf-8")
unfolding try_serve_static normalize_static_path components inner_components join is_under
    trim_start_matches starts_with strip_prefix strip_suffix split guess_content_type type_of
    extension file_name behind_last format eq_ignore_case
style_served = refl

try_serve_static_inside_example :
    (q : PathBuf) × (at_css q ≡ some (7 ∷ []))
    × ("text/css; charset=utf-8" ≡ guess_content_type q)
    × Beyond (place public_dir) (place q)
try_serve_static_inside_example =
    try_serve_static_inside decode unresolved nothing_exists at_css public_dir "//css/./a.CSS"
      (7 ∷ []) "text/css; charset=utf-8" style_served
