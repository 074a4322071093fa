-- ===== src/Server/Modules/Tests.antt =====
-- Two modules, of which `/app/b.wp` has a pipeline and `/app/a.wp` imports it, in the tree last first.
use webpipe.Base.{[], ◌∷◌, ◌≡◌, refl, insert}
use webpipe.Base.Text.{split}
use webpipe.Server.Modules.{path_to_id, number_paths}
use webpipe.Server.Modules.Example.{tree}
use webpipe.Server.Modules.Paths.{sort_paths, insert_path, path_le, components_le, text_le}

-- A folder comes before a file whose name it begins.
folders_first : sort_paths ("/a.b/x" ∷ "/a/x" ∷ "/a" ∷ []) ≡ "/a" ∷ "/a/x" ∷ "/a.b/x" ∷ []
unfolding sort_paths insert_path path_le components_le text_le split
folders_first = refl

numbered_in_order : path_to_id tree ≡ ("/app/a.wp", 0) ∷ ("/app/b.wp", 1) ∷ []
unfolding path_to_id number_paths sort_paths insert_path path_le components_le text_le split insert
numbered_in_order = refl
