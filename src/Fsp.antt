-- ===== src/Fsp.antt =====
-- `pengwin/src/fsp_impl/create.rs`: the parent and the name of a path. The path is the bytes of a
-- `str`, in which a slash is one byte.
pub mod Parent
pub mod Handles
pub mod Counts
use pengwin.Base.{
  ℕ, zero, suc, ◌+◌, Bool, true, false, ◌==◌, if◌then◌else◌, Option, none, some, List, [], ◌∷◌,
  take, drop,
}
use pengwin.FsContext.{slash}

abbrev pub trim_at : ℕ → List ℕ → List ℕ
trim_at b [] = if b == slash then [] else b ∷ []
trim_at b (c ∷ rest) = b ∷ c ∷ rest

-- `path.trim_end_matches('/')`.
unfoldable pub trim_slashes : List ℕ → List ℕ
trim_slashes [] = []
trim_slashes (b ∷ path) = trim_at b (trim_slashes path)

abbrev pub last_at : ℕ → Option ℕ → Option ℕ
last_at b (some pos) = some (suc pos)
last_at b none = if b == slash then some 0 else none

-- `path.rfind('/')`.
unfoldable pub last_slash : List ℕ → Option ℕ
last_slash [] = none
last_slash (b ∷ path) = last_at b (last_slash path)

-- An empty name is none.
abbrev pub named : List ℕ → List ℕ → Option (List ℕ × List ℕ)
named parent [] = none
named parent (b ∷ name) = some (parent, b ∷ name)

abbrev pub parent_of : ℕ → List ℕ → List ℕ
parent_of zero path = slash ∷ []
parent_of (suc pos) path = take (suc pos) path

abbrev pub split_at : List ℕ → Option ℕ → Option (List ℕ × List ℕ)
split_at path none = none
split_at path (some pos) = named (parent_of pos path) (drop (suc pos) path)

unfoldable pub split_path : List ℕ → Option (List ℕ × List ℕ)
split_path path = let trimmed = trim_slashes path in split_at trimmed (last_slash trimmed)
