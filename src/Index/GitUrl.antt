-- ===== src/Index/GitUrl.antt =====
-- src/index/giturl.go: the normal form of repository URLs. Package net/url, and the host and port
-- functions of package net, are a parameter.
use bepper.Base.{
  ℕ, String, Bool, not, ◌&&◌, ◌||◌, Option, none, some, ◌==◌, leb, eqb, if◌then◌else◌,
}
use Prim.Native.Char.{code}
use Prim.Native.String.{[], ◌∷◌}
use bepper.Base.Text.{
  ◌⧺◌, push, cut, trim_prefix, has_prefix, trim_suffix, trim_space, contains_any, or_else, is_some,
}

pub record Userinfo : Type 0 where
  pub username : String
  pub password : Option String

-- url.URL; `rest` stands for the fields that the program hands on unread.
pub record Url (Rest : Type 0) : Type 0 where
  pub scheme : String
  pub user : Option Userinfo
  pub host : String
  pub path : String
  pub rest : Rest

pub record UrlPackage : Type 1 where
  pub Rest : Type 0
  pub parse : String → Option (Url Rest)
  pub to_string : Url Rest → String
  pub hostname : Url Rest → String
  pub split_host_port : String → Option (String × String)
  pub join_host_port : String → String → String

is_scheme_char : ℕ → Bool
is_scheme_char c =
    (leb b'a' c && leb c b'z')
    || (leb b'0' c && leb c b'9')
    || eqb c b'+'
    || eqb c b'.'
    || eqb c b'-'

is_digit : ℕ → Bool
is_digit c = leb b'0' c && leb c b'9'

-- The class [0-9a-zA-Z%._~-].
is_host_char : ℕ → Bool
unfolding is_digit
is_host_char c =
    is_digit c
    || (leb b'a' c && leb c b'z')
    || (leb b'A' c && leb c b'Z')
    || eqb c b'%'
    || eqb c b'.'
    || eqb c b'_'
    || eqb c b'~'
    || eqb c b'-'

-- The longest prefix of characters that pass the test, and what stands after it.
span : (ℕ → Bool) → String → String × String
span p [] = ("", "")
span p (c ∷ s) = let rest = span p s in if p (code c) then push c rest else ("", c ∷ s)

-- The optional `[a-z0-9+.-]+:` in front of a text, and what stands after it.
scheme_prefix : String → String × String
unfolding span is_scheme_char
scheme_prefix s =
    let (scheme, after) = span is_scheme_char s in
    if not (scheme == "") && has_prefix after ":"
    then (scheme ⧺ ":", trim_prefix after ":")
    else ("", s)

-- schemeRegexp matches at the start of the text.
has_scheme : String → Bool
unfolding scheme_prefix
has_scheme s = has_prefix s "/" || has_prefix (scheme_prefix s).1 "//"

-- `:[0-9]*[^0-9/@][^@]*$` at the head of a text: the port digits, and the text from the character
-- before which the slash is missing.
port_without_slash : String → Option (String × String)
unfolding span is_digit
port_without_slash s =
    if has_prefix s ":"
    then (let (digits, after) = span is_digit (trim_prefix s ":") in
        if after == "" || has_prefix after "/" || contains_any after (λ c. eqb c b'@')
        then none
        else some (":" ⧺ digits, after))
    else none

-- `[0-9a-zA-Z%._~-]+` and then the above: the text up to the missing slash, and after it.
host_without_slash : String → Option (String × String)
unfolding port_without_slash is_host_char
host_without_slash s =
    let (host, after) = span is_host_char s in
    if host == "" then none else elim (port_without_slash after) [
      | none ↦ none
      | some (port, path) ↦ some (host ⧺ port, path)
    ]

-- The optional `[…]+(:[…]*)?@` in front of a host.
user_prefix : String → Option (String × String)
unfolding span is_host_char
user_prefix s =
    let (name, after) = span is_host_char s in
    let (password, end) = span is_host_char (trim_prefix after ":") in
    if name == ""
    then none
    else if has_prefix after "@"
    then some (name ⧺ "@", trim_prefix after "@")
    else if has_prefix after ":" && has_prefix end "@"
    then some (name ⧺ ":" ⧺ password ⧺ "@", trim_prefix end "@")
    else none

-- The replacement by missingSlashBetweenPortAndPathRegexp; a text that does not match stays.
add_missing_slash : String → String
unfolding scheme_prefix user_prefix host_without_slash
add_missing_slash s =
    let (scheme, after) = scheme_prefix s in
    let rest = trim_prefix after "//" in
    let (user, hosted) = or_else ("", rest) (user_prefix rest) in
    if has_prefix after "//"
    then elim (host_without_slash hosted) [
      | none ↦ s
      | some (host, path) ↦ scheme ⧺ "//" ⧺ user ⧺ host ⧺ "/" ⧺ path
    ]
    else s

is_dot_or_colon : ℕ → Bool
is_dot_or_colon c = eqb c b'.' || eqb c b':'

module _ (urls : UrlPackage) where
  open urls use {Rest, parse, to_string, hostname, split_host_port, join_host_port}

  -- `if repoURL.Path != "/"`
  strip_slash : Url Rest → Url Rest
  strip_slash u = if u.path == "/" then u else record u { path = trim_suffix u.path "/" }

  -- file://buildbuddy-io/buildbuddy and //buildbuddy-io/buildbuddy -> buildbuddy-io/buildbuddy
  undo_host : Url Rest → Url Rest
  unfolding is_dot_or_colon
  undo_host u =
      if (u.scheme == "file" || u.scheme == "")
        && not (u.host == "")
        && not (hostname u == "localhost")
        && not (contains_any u.host is_dot_or_colon)
        && not (u.path == "")
      then record u { scheme = ""; path = u.host ⧺ u.path; host = "" }
      else u

  -- The path's first part becomes the host, or the host is github.com.
  find_host : Url Rest → Url Rest
  unfolding is_dot_or_colon
  find_host u =
      let first = or_else (u.path, "") (cut b'/' u.path) in
      if u.scheme == "" && u.host == "" && not (has_prefix u.path "/")
      then (if contains_any first.0 is_dot_or_colon || first.0 == "localhost"
          then record u { host = first.0; path = trim_prefix u.path first.0 }
          else if is_some (cut b'/' u.path)
          then record u { host = "github.com"; path = "/" ⧺ u.path }
          else u)
      else u

  -- A trailing ":" of a host that lacks a port.
  strip_colon : Url Rest → Url Rest
  strip_colon u = elim (split_host_port u.host) [
    | none ↦ u
    | some (host, port) ↦
        if port == "" then record u { host = trim_suffix (join_host_port host port) ":" } else u
  ]

  username_of : Option Userinfo → String
  username_of none = ""
  username_of (some i) = i.username

  assume_scheme : Url Rest → Url Rest
  unfolding username_of
  assume_scheme u =
      if not (to_string u == "") && u.scheme == ""
      then (if hostname u == "localhost"
          then record u { scheme = "http" }
          else if u.host == ""
          then record u { scheme = "file" }
          else if not (username_of u.user == "")
          then record u { scheme = "ssh" }
          else record u { scheme = "https" })
      else u

  prepare_repo : String → String
  unfolding has_scheme add_missing_slash
  prepare_repo repo = add_missing_slash (if has_scheme repo then repo else "//" ⧺ repo)

  pub parse_repo_url : String → Option (Url Rest)
  unfolding prepare_repo strip_slash undo_host find_host strip_colon assume_scheme
  parse_repo_url repo = elim (parse (prepare_repo (trim_space repo))) [
    | none ↦ none
    | some u ↦ some (assume_scheme (strip_colon (find_host (undo_host (strip_slash u)))))
  ]

  coerce_scheme : Url Rest → Url Rest
  coerce_scheme u =
      if u.scheme == "file" || (u.scheme == "" && hostname u == "" && not (u.path == ""))
      then record u { scheme = "file" }
      else if not (u.scheme == "https") && hostname u == "localhost"
      then record u { scheme = "http" }
      else if not (to_string u == "")
      then record u { scheme = "https" }
      else u

  strip_user : Url Rest → Url Rest
  strip_user u = record u { user = none; path = trim_suffix u.path ".git" }

  pub normalize_repo_url : String → Option (Url Rest)
  unfolding coerce_scheme strip_user
  normalize_repo_url repo = elim (parse_repo_url (trim_space repo)) [
    | none ↦ none
    | some u ↦ some (strip_user (coerce_scheme u))
  ]
