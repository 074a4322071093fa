-- ===== src/Server/Static.antt =====
-- server.rs: the files of the public folder. A path is the list of its components, by which Rust's
-- `Path` compares paths; on Unix there is no drive prefix. `decode` is `percent_decode_str` with
-- `decode_utf8`; `canonicalize`, `exists` and `read` are the operating system's.
mod Walk
pub mod Inside
mod Tests
use webpipe.Base.{
  ℕ, String, Bool, true, false, not, Option, none, some, List, [], ◌∷◌, ◌++◌, ◌==◌, ◌&&◌, any,
  is_some, is_empty, and_then, get_or, if◌then◌else◌,
}
use webpipe.Base.Text.{format, split, starts_with, trim_start_matches, behind_last}
use webpipe.Middleware.RateLimit.{eq_ignore_case}
use webpipe.Middleware.Validate.{ends_with}

pub data Component : Type 0 where
  root_dir cur_dir parent_dir : Component
  normal : String → Component

abbrev pub PathBuf : Type 0
PathBuf = List Component

-- `Path::components`: empty parts and `.` are left out, but for a `.` at the start of a relative path.
abbrev pub with_component : String → PathBuf → PathBuf
with_component part path =
    if part == ""
    then path
    else if part == "."
    then path
    else if part == ".."
    then parent_dir ∷ path
    else normal part ∷ path

unfoldable pub inner_components : List String → PathBuf
inner_components [] = []
inner_components (part ∷ parts) = with_component part (inner_components parts)

abbrev pub relative_components : List String → PathBuf
relative_components [] = []
relative_components (part ∷ parts) =
    if part == "." then cur_dir ∷ inner_components parts else inner_components (part ∷ parts)

unfoldable pub components : String → PathBuf
unfolding inner_components split starts_with
components path =
    if starts_with path "/"
    then root_dir ∷ inner_components (split b'/' path)
    else relative_components (split b'/' path)

-- `Path::join`
unfoldable pub join : PathBuf → PathBuf → PathBuf
join p (root_dir ∷ q) = root_dir ∷ q
join p (cur_dir ∷ q) = if is_empty p then cur_dir ∷ q else p ++ q
join p q = p ++ q

abbrev pub same_component : Component → Component → Bool
same_component root_dir root_dir = true
same_component cur_dir cur_dir = true
same_component parent_dir parent_dir = true
same_component (normal a) (normal b) = a == b
same_component _ _ = false

-- `Path::starts_with`
unfoldable pub is_under : PathBuf → PathBuf → Bool
is_under path [] = true
is_under [] (c ∷ base) = false
is_under (d ∷ path) (c ∷ base) = same_component d c && is_under path base

unfoldable pub file_name : PathBuf → Option String
file_name [] = none
file_name (normal name ∷ []) = some name
file_name (_ ∷ []) = none
file_name (_ ∷ c ∷ path) = file_name (c ∷ path)

-- Nothing is an extension where the only dot comes first.
abbrev pub unless_hidden : String → Option String → Option String
unless_hidden name none = none
unless_hidden name (some ext) = if name == format ("." ∷ ext ∷ []) then none else some ext

unfoldable pub extension : PathBuf → Option String
unfolding file_name behind_last format
extension path = and_then (file_name path) λ name. unless_hidden name (behind_last "." name)

abbrev pub is_parent : Component → Bool
is_parent parent_dir = true
is_parent _ = false

abbrev pub or_index : String → String
or_index rel = if rel == "" then "index.html" else rel

-- The defence against links: both paths as the operating system resolves them, if it can.
abbrev pub if_under : PathBuf → PathBuf → Option PathBuf → Option PathBuf → Option PathBuf
if_under public_dir full (some c) (some base) = if is_under c base then some full else none
if_under public_dir full _ _ = if is_under full public_dir then some full else none

module _ (canonicalize : PathBuf → Option PathBuf) (public_dir : PathBuf) where
  abbrev pub unless_parent : PathBuf → Option PathBuf
  unless_parent rel =
      let full = join public_dir rel in
      if any is_parent rel
      then none
      else if_under public_dir full (canonicalize full) (canonicalize public_dir)

  unfoldable pub normalize_static_path : (String → Option String) → String → Option PathBuf
  unfolding components join is_under trim_start_matches starts_with
  normalize_static_path decode request_path =
      if starts_with request_path "/"
      then (and_then (decode request_path)
          λ decoded. unless_parent (components (or_index (trim_start_matches b'/' decoded))))
      else none

abbrev pub types : List (String × String)
types =
    ("html", "text/html; charset=utf-8")
    ∷ ("htm", "text/html; charset=utf-8")
    ∷ ("css", "text/css; charset=utf-8")
    ∷ ("js", "application/javascript; charset=utf-8")
    ∷ ("mjs", "application/javascript; charset=utf-8")
    ∷ ("json", "application/json; charset=utf-8")
    ∷ ("svg", "image/svg+xml")
    ∷ ("png", "image/png")
    ∷ ("jpg", "image/jpeg")
    ∷ ("jpeg", "image/jpeg")
    ∷ ("gif", "image/gif")
    ∷ ("webp", "image/webp")
    ∷ ("ico", "image/x-icon")
    ∷ ("woff", "font/woff")
    ∷ ("woff2", "font/woff2")
    ∷ ("ttf", "font/ttf")
    ∷ ("otf", "font/otf")
    ∷ []

unfoldable pub type_of : String → List (String × String) → String
unfolding eq_ignore_case
type_of ext [] = "application/octet-stream"
type_of ext ((word, content_type) ∷ more) =
    if eq_ignore_case ext word then content_type else type_of ext more

unfoldable pub guess_content_type : PathBuf → String
unfolding type_of extension
guess_content_type path = type_of (get_or (extension path) "") types

abbrev pub index_of : PathBuf → PathBuf
index_of path = join path (normal "index.html" ∷ [])

module _ (decode : String → Option String) (canonicalize : PathBuf → Option PathBuf)
    (exists : PathBuf → Bool) (read : PathBuf → Option (List ℕ)) where
  -- The file that is read for a path that has been let through.
  abbrev pub or_own_index : String → PathBuf → PathBuf
  or_own_index request_path candidate =
      if not (exists candidate)
        && not (is_some (extension (components request_path)))
        && exists (index_of candidate)
      then index_of candidate
      else candidate

  abbrev pub candidate_of : String → PathBuf → PathBuf
  candidate_of request_path path =
      or_own_index request_path (if ends_with request_path "/" then index_of path else path)

  abbrev pub served : PathBuf → Option (List ℕ × String)
  served candidate = and_then (read candidate) λ bytes. some (bytes, guess_content_type candidate)

  -- The bytes of the response and its content type.
  unfoldable pub try_serve_static : PathBuf → String → Option (List ℕ × String)
  unfolding normalize_static_path guess_content_type components extension join
  try_serve_static public_dir request_path =
      and_then (normalize_static_path canonicalize public_dir decode request_path)
        λ path. served (candidate_of request_path path)
