-- ===== src/Renderer/Echo.antt =====
-- renderer/echo-renderer.go: in which context a path of the router is rendered.
use arrower.Base.{
  ◌==◌, nat_eq, bytes_eq, if◌then◌else◌, is_some, Bytes, Bool, true, false, List, [], ◌∷◌, ◌++◌,
}
use arrower.Base.Dict.{Dict, lookup}
use arrower.Base.Text.{split_by}
use arrower.Renderer.Views.{View}
use arrower.Renderer.Render.{admin, admin_dir}

module _ {Set : Type 0} (views : Dict Bytes (View Set)) where
  -- The loop over the parts of the path.
  unfoldable pub registered : Bool → List Bytes → Bytes
  unfolding lookup
  registered is_admin [] = if is_admin then admin else []
  registered is_admin (path ∷ paths) =
      let rest = registered (if path == admin then true else is_admin) paths in
      if path == []
      then rest
      else if path == admin
      then rest
      else if is_some (lookup path views)
      then (if is_admin then b'/' ∷ (admin_dir ++ path) else path)
      else rest

  -- EchoRenderer.isRegisteredContext
  unfoldable pub is_registered_context : Bytes → Bytes
  unfolding registered split_by
  is_registered_context path = registered false (split_by (b'/' ∷ []) 0 path)
