-- ===== src/Server/Static/Inside.antt =====
-- server.rs: a file that is served lies under the public folder.
use webpipe.Base.{
  ℕ, String, Bool, true, false, Option, none, some, List, [], ◌≡◌, refl, sym, ap, ◌∙◌, any,
  and_then, if◌then◌else◌, arith,
}
use webpipe.Base.Text.{starts_with}
use webpipe.Middleware.Validate.{ends_with}
use webpipe.Server.Static.{
  PathBuf, join, is_parent, if_under, unless_parent, normalize_static_path, guess_content_type,
  index_of, candidate_of, served, try_serve_static,
}
use webpipe.Server.Static.Walk.{
  some_pair, is_root, Beyond, walk-Beyond, wanted, wanted-rootless, walk-join, Beyond-trans, place,
  index_of-Beyond,
}

-- What is let through is the path that was asked for.
if_under_full :
    (dir full q : PathBuf) (c base : Option PathBuf) → if_under dir full c base ≡ some q → full ≡ q
if_under_full dir full q (some c) (some base) h = ground (arith, h)
if_under_full dir full q (some c) none h = ground (arith, h)
if_under_full dir full q none base h = ground (arith, h)

module _ (canonicalize : PathBuf → Option PathBuf) (dir : PathBuf) where
  unless_parent-Beyond :
      (rel q : PathBuf)
      → any is_root rel ≡ false
      → unless_parent canonicalize dir rel ≡ some q
      → Beyond (place dir) (place q)
  unless_parent-Beyond rel q rootless h = placed (any is_parent rel) refl h
    where
      full : PathBuf
      full = join dir rel

      placed :
          (b : Bool)
          → any is_parent rel ≡ b
          → (if b then none else if_under dir full (canonicalize full) (canonicalize dir)) ≡ some q
          → Beyond (place dir) (place q)
      placed true k e = ground (arith, e)
      placed false k e =
          let (rest, led) = walk-Beyond (place dir) rel k rootless in
          let asked : full ≡ q =
            if_under_full dir full q (canonicalize full) (canonicalize dir) e in
          (rest, ap place (sym asked) ∙ walk-join [] dir rel rootless ∙ led)

  normalize_static_path-Beyond :
      (decode : String → Option String) (request_path : String) (q : PathBuf)
      → normalize_static_path canonicalize dir decode request_path ≡ some q
      → Beyond (place dir) (place q)
  unfolding normalize_static_path
  normalize_static_path-Beyond decode request_path q h = placed (starts_with request_path "/") h
    where
      let_through :
          (o : Option String)
          → and_then o (λ decoded. unless_parent canonicalize dir (wanted decoded)) ≡ some q
          → Beyond (place dir) (place q)
      let_through none e = ground (arith, e)
      let_through (some decoded) e =
          unless_parent-Beyond (wanted decoded) q (wanted-rootless decoded) e

      placed :
          (b : Bool)
          → (if b
              then and_then
                  (decode request_path)
                  (λ decoded. unless_parent canonicalize dir (wanted decoded))
              else none)
            ≡ some q
          → Beyond (place dir) (place q)
      placed true e = let_through (decode request_path) e
      placed false e = ground (arith, e)

module _ (decode : String → Option String) (canonicalize : PathBuf → Option PathBuf)
    (exists : PathBuf → Bool) (read : PathBuf → Option (List ℕ)) where
  or_index_of-Beyond :
      (b : Bool) (at : List String) (path : PathBuf)
      → Beyond at (place path)
      → Beyond at (place (if b then index_of path else path))
  or_index_of-Beyond true at path h =
      Beyond-trans at (place path) (place (index_of path)) h (index_of-Beyond path)
  or_index_of-Beyond false at path h = h

  candidate_of-Beyond :
      (at : List String) (request_path : String) (path : PathBuf)
      → Beyond at (place path)
      → Beyond at (place (candidate_of decode canonicalize exists read request_path path))
  candidate_of-Beyond at request_path path h =
      or_index_of-Beyond _ at _ (or_index_of-Beyond (ends_with request_path "/") at path h)

  -- A response to a request for a file is the content of one path, with the type that the path's
  -- extension says, and by its names that path leads to a place in the public folder: what the
  -- request asks for never leads out of it. Links in the folder are not followed here.
  pub try_serve_static_inside :
      (dir : PathBuf) (request_path : String) (bytes : List ℕ) (content_type : String)
      → try_serve_static decode canonicalize exists read dir request_path
        ≡ some (bytes, content_type)
      → (q : PathBuf) × (read q ≡ some bytes)
        × (content_type ≡ guess_content_type q)
        × Beyond (place dir) (place q)
  unfolding try_serve_static
  try_serve_static_inside dir request_path bytes content_type h =
      found (normalize_static_path canonicalize dir decode request_path) refl h
    where
      Served : Type 0
      Served =
          (q : PathBuf) × (read q ≡ some bytes)
          × (content_type ≡ guess_content_type q)
          × Beyond (place dir) (place q)

      candidate : PathBuf → PathBuf
      candidate path = candidate_of decode canonicalize exists read request_path path

      answers :
          (q : PathBuf) (o : Option (List ℕ))
          → read q ≡ o
          → and_then {B = List ℕ × String} o (λ b. some (b, guess_content_type q))
            ≡ some (bytes, content_type)
          → Beyond (place dir) (place q)
          → Served
      answers q none e k inside = ground (arith, k)
      answers q (some b) e k inside =
          let (same_bytes, same_type) =
            some_pair (b, guess_content_type q) (bytes, content_type) k in
          (q, e ∙ ap some same_bytes, sym same_type, inside)

      found :
          (o : Option PathBuf)
          → normalize_static_path canonicalize dir decode request_path ≡ o
          → and_then o (λ path. served decode canonicalize exists read (candidate path))
            ≡ some (bytes, content_type)
          → Served
      found none e k = ground (arith, k)
      found (some path) e k = answers (candidate path) (read (candidate path)) refl k (
          candidate_of-Beyond (place dir) request_path path
            (normalize_static_path-Beyond canonicalize dir decode request_path path e))
