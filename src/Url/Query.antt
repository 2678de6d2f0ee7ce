-- ===== src/Url/Query.antt =====
-- `url.Values`: `URL.Query`, `Get`, `Del` and `Encode`.
use go_gather.Base.{
  Bool, true, false, ◌&&◌, ◌||◌, ◌==◌, ltb, Option, some, List, [], ◌∷◌, ◌++◌, if◌then◌else◌,
}
use go_gather.Base.Text.{Text, codes, contains, text_eq, split}
use go_gather.Path.{is_empty}
use go_gather.Url.Escape.{query, unescape, escape}
use go_gather.Url.Authority.{cut}
use go_gather.Url.Parse.{Url, or_empty}

-- The values of all keys, in the order of the query. The code's map keeps them apart by key.
abbrev pub Values : Type 0
Values = List (Text × Text)

abbrev kept : Option Text → Option Text → Values → Values
kept (some k) (some v) vs = (k, v) ∷ vs
kept _ _ vs = vs

-- A part between two `&`: dropped where it is empty, holds a `;` or has a broken escape.
unfoldable pub query_part : Text → Values → Values
unfolding contains is_empty cut unescape
query_part part vs =
    let (k, v) = cut b'=' part in
    if contains part (codes ";") || is_empty part
    then vs
    else kept (unescape query k) (unescape query (or_empty v)) vs

unfoldable pub query_parts : List Text → Values
unfolding query_part
query_parts [] = []
query_parts (p ∷ ps) = query_part p (query_parts ps)

-- `URL.Query`
unfoldable pub query_of : Url → Values
unfolding query_parts split
query_of u = query_parts (split b'&' u.raw_query)

-- `Values.Get`
unfoldable pub get_value : Text → Values → Text
unfolding text_eq
get_value key [] = []
get_value key ((k, v) ∷ vs) = if text_eq k key then v else get_value key vs

-- `Values.Del`
unfoldable pub delete_key : Text → Values → Values
unfolding text_eq
delete_key key [] = []
delete_key key ((k, v) ∷ vs) =
    let rest = delete_key key vs in if text_eq k key then rest else (k, v) ∷ rest

-- The order of texts by their bytes.
unfoldable pub text_lt : Text → Text → Bool
text_lt [] [] = false
text_lt [] (_ ∷ _) = true
text_lt (_ ∷ _) [] = false
text_lt (c ∷ s) (d ∷ t) = ltb c d || (c == d && text_lt s t)

unfoldable pub insert_value : Text × Text → Values → Values
unfolding text_lt
insert_value (k, v) [] = (k, v) ∷ []
insert_value (k, v) ((j, w) ∷ vs) =
    if text_lt j k then (j, w) ∷ insert_value (k, v) vs else (k, v) ∷ (j, w) ∷ vs

-- Sorted by key; the values of one key stay in order.
unfoldable pub sort_values : Values → Values
unfolding insert_value
sort_values [] = []
sort_values (p ∷ vs) = insert_value p (sort_values vs)

unfoldable pub encode_sorted : Values → Text
unfolding escape
encode_sorted [] = []
encode_sorted ((k, v) ∷ []) = escape query k ++ (b'=' ∷ escape query v)
encode_sorted ((k, v) ∷ p ∷ vs) =
    escape query k ++ (b'=' ∷ (escape query v ++ (b'&' ∷ encode_sorted (p ∷ vs))))

-- `Values.Encode`
unfoldable pub encode : Values → Text
unfolding encode_sorted sort_values
encode vs = encode_sorted (sort_values vs)
