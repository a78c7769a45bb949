-- ===== src/Index/Tags.antt =====
-- src/index/tags.go
use bepper.Base.{String, Bool, List, [], ◌∷◌, ◌++◌, ◌==◌, ◌&&◌, ◌||◌, not, if◌then◌else◌, false}
use bepper.Base.Text.{split, trim_space}

-- `seen[t]`: the texts seen so far are those of the output.
unfoldable pub contains_text : String → List String → Bool
contains_text t [] = false
contains_text t (s ∷ out) = s == t || contains_text t out

-- The loop over the parts.
collect : List String → List String → List String
unfolding contains_text
collect out [] = out
collect out (t ∷ parts) =
    let trimmed = trim_space t in
    collect
      (if not (trimmed == "") && not (contains_text trimmed out) then out ++ trimmed ∷ [] else out)
      parts

unfoldable pub split_and_trim_and_dedupe_tags : String → List String
unfolding collect split trim_space
split_and_trim_and_dedupe_tags tags = if tags == "" then [] else collect [] (split b',' tags)
