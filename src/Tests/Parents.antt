-- ===== src/Tests/Parents.antt =====
-- The parent of `/a` on the small image.
use pengwin.Base.{◌≡◌, refl, ok, [], ◌∷◌, ◌++◌, some}
use pengwin.FsContext.{
  slash, components, step, resolve_components, resolve_path_with_hops, resolve_path, split_from,
}
use pengwin.Fsp.{trim_slashes, last_slash, split_path}
use pengwin.Fsp.Parent.{split_path-components, split_path-resolve_path}
use pengwin.Tests.Memory.{memory}
use pengwin.Tests.Paths.{same, sectors, fs}

split_a : split_path (slash ∷ 97 ∷ slash ∷ []) ≡ some (slash ∷ [], 97 ∷ [])
unfolding split_path last_slash trim_slashes
split_a = refl

split_path-components_example :
    components (slash ∷ 97 ∷ slash ∷ []) ≡ components (slash ∷ []) ++ (97 ∷ []) ∷ []
split_path-components_example = split_path-components (slash ∷ 97 ∷ slash ∷ []) split_a

resolve_root : resolve_path same memory 2 sectors fs (slash ∷ []) ≡ ok 2
unfolding resolve_path resolve_path_with_hops resolve_components components split_from
resolve_root = refl

split_path-resolve_path_example :
    resolve_path same memory 2 sectors fs (slash ∷ 97 ∷ slash ∷ [])
    ≡ step same memory 2 sectors fs (slash ∷ 97 ∷ slash ∷ []) 2 (97 ∷ [])
split_path-resolve_path_example =
    split_path-resolve_path same memory 2 sectors fs (slash ∷ 97 ∷ slash ∷ []) split_a resolve_root
