-- ===== src/Url/Print.antt =====
-- `URL.String`.
use go_gather.Base.{
  Bool, true, false, not, ◌&&◌, ◌||◌, Option, none, some, [], ◌∷◌, ◌++◌, if◌then◌else◌,
}
use go_gather.Base.Text.{Text, codes, contains, text_eq}
use go_gather.Path.{is_empty, is_abs}
use go_gather.Url.Escape.{
  Mode, path, fragment, host, user, should_escape, mem_byte, unescape, escape,
}
use go_gather.Url.Authority.{cut}
use go_gather.Url.Parse.{Url}

-- `validEncoded`
unfoldable pub valid_encoded : Mode → Text → Bool
unfolding mem_byte should_escape
valid_encoded m [] = true
valid_encoded m (c ∷ s) =
    (mem_byte c (codes "!$&'()*+,;=:@[]%") || not (should_escape m c)) && valid_encoded m s

abbrev is_text : Option Text → Text → Bool
is_text none s = false
is_text (some t) s = text_eq t s

-- The text that was parsed, where it still stands for the value; else the value escaped.
unfoldable pub escaped : Mode → Text → Text → Text
unfolding valid_encoded unescape escape is_empty text_eq
escaped m raw s =
    if not (is_empty raw) && valid_encoded m raw && is_text (unescape m raw) s
    then raw
    else if text_eq s (codes "*")
    then codes "*"
    else escape m s

-- `Userinfo.String`, with the `@` behind it.
unfoldable pub print_user : Option (Text × Option Text) → Text
unfolding escape
print_user none = []
print_user (some (name, none)) = escape user name ++ (b'@' ∷ [])
print_user (some (name, some password)) =
    escape user name ++ (b':' ∷ (escape user password ++ (b'@' ∷ [])))

abbrev is_none : {A : Type 0} → Option A → Bool
is_none none = true
is_none (some _) = false

unfoldable pub print_authority : Url → Text
unfolding is_empty escape print_user
print_authority u =
    if is_empty u.scheme && is_empty u.host && is_none u.user
    then []
    else if u.omit_host && is_empty u.host && is_none u.user
    then []
    else (if is_empty u.host && is_empty u.path && is_none u.user then [] else codes "//")
      ++ (print_user u.user ++ escape host u.host)

-- The path behind what is printed already: where that is nothing, a colon in the first segment would
-- look like a scheme.
unfoldable pub print_path : Text → Url → Text
unfolding escaped is_empty is_abs contains cut
print_path printed u =
    let p = escaped path u.raw_path u.path in
    if not (is_empty p) && not (is_abs p) && not (is_empty u.host)
    then b'/' ∷ p
    else if is_empty printed && contains (cut b'/' p).0 (codes ":")
    then codes "./" ++ p
    else p

unfoldable pub print_tail : Url → Text
unfolding escaped is_empty
print_tail u =
    (if u.force_query || not (is_empty u.raw_query) then b'?' ∷ u.raw_query else [])
    ++ (if is_empty u.fragment then [] else b'#' ∷ escaped fragment u.raw_fragment u.fragment)

-- `URL.String`
unfoldable pub print_url : Url → Text
unfolding is_empty print_authority print_path print_tail
print_url u =
    let scheme = if is_empty u.scheme then [] else u.scheme ++ codes ":" in
    let front = scheme ++ print_authority u in
    if is_empty u.opaque
    then front ++ (print_path front u ++ print_tail u)
    else scheme ++ (u.opaque ++ print_tail u)
