-- ===== src/Auth/ReturnPath.antt =====
-- `validateReturnPath` of src/auth/middleware.go.
use bepper.Base.{
  String, ◌≡◌, refl, Bool, true, false, not, ◌||◌, Option, none, some, ◌==◌, eq_iff, if◌then◌else◌,
}
use Prim.Native.String.{◌∷◌}
use bepper.Base.Text.{has_prefix, cut_prefix, not_empty}
use bepper.Index.GitUrl.{UrlPackage, Url}

neither : (a b : Bool) → (not a || not b) ≡ false → (a ≡ true) × (b ≡ true)
neither true true h = (refl, refl)
neither false b h = cc
neither true false h = cc

rooted_once : (empty a b : Bool) → (empty || not a || b) ≡ false → (a ≡ true) × (b ≡ false)
rooted_once false true false h = (refl, refl)
rooted_once true a b h = cc
rooted_once false false b h = cc
rooted_once false true true h = cc

module _ (urls : UrlPackage) where
  -- From the parsed URL on.
  unfoldable pub local_path : String → Option (Url urls.Rest) → String
  local_path p none = "/"
  local_path p (some u) = if not (u.host == "") || not (u.scheme == "") then "/" else p

  unfoldable pub validate_return_path : String → String
  validate_return_path p =
      if (p == "") || not (has_prefix p "/") || has_prefix p "//"
      then "/"
      else local_path p (urls.parse p)

  -- What the fallback "/" or an accepted path is like.
  pub data Local (p : String) : String → Type 0 where
    fallback : Local p "/"
    unchanged :
        (u : Url urls.Rest)
        → has_prefix p "/" ≡ true
        → has_prefix p "//" ≡ false
        → urls.parse p ≡ some u
        → u.host ≡ ""
        → u.scheme ≡ ""
        → Local p p

  parsed-Local :
      (p : String) (u : Url urls.Rest) (foreign : Bool)
      → has_prefix p "/" ≡ true
      → has_prefix p "//" ≡ false
      → urls.parse p ≡ some u
      → (not (u.host == "") || not (u.scheme == "")) ≡ foreign
      → Local p (if foreign then "/" else p)
  parsed-Local p u true rooted relative h e = fallback
  parsed-Local p u false rooted relative h e =
      let (host, scheme) = neither (u.host == "") (u.scheme == "") e in
      unchanged u rooted relative h ((eq_iff u.host "").0 host) ((eq_iff u.scheme "").0 scheme)

  local_path-Local :
      (p : String) (parsed : Option (Url urls.Rest))
      → has_prefix p "/" ≡ true
      → has_prefix p "//" ≡ false
      → urls.parse p ≡ parsed
      → Local p (local_path p parsed)
  unfolding local_path
  local_path-Local p none rooted relative h = fallback
  local_path-Local p (some u) rooted relative h =
      parsed-Local p u (not (u.host == "") || not (u.scheme == "")) rooted relative h refl

  checked-Local :
      (p : String) (bad : Bool)
      → ((p == "") || not (has_prefix p "/") || has_prefix p "//") ≡ bad
      → Local p (if bad then "/" else local_path p (urls.parse p))
  checked-Local p true e = fallback
  checked-Local p false e =
      let (rooted, relative) = rooted_once (p == "") (has_prefix p "/") (has_prefix p "//") e in
      local_path-Local p (urls.parse p) rooted relative refl

  -- The path that a login returns to is "/", or the requested one, and then that begins with a single
  -- slash and net/url finds neither a host nor a scheme in it.
  pub validate_return_path-Local : (p : String) → Local p (validate_return_path p)
  unfolding validate_return_path
  validate_return_path-Local p =
      checked-Local p ((p == "") || not (has_prefix p "/") || has_prefix p "//") refl

  -- A path that begins with a slash and a backslash is accepted if net/url finds neither a host nor a
  -- scheme in it.
  backslash_path_passes :
      (rest : String) (u : Url urls.Rest)
      → urls.parse ("/" ∷ "\\" ∷ rest) ≡ some u
      → u.host ≡ ""
      → u.scheme ≡ ""
      → validate_return_path ("/" ∷ "\\" ∷ rest) ≡ "/" ∷ "\\" ∷ rest
  unfolding validate_return_path local_path cut_prefix
  backslash_path_passes rest u parsed host scheme =
      rw (parsed, host, scheme, not_empty ("/" ∷ "\\" ∷ rest) (λ e. cc)) refl
