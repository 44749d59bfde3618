-- ===== src/Pattern/Tests.antt =====
-- Runs of the regular expressions, and the theorems at a concrete path
-- (src/libraries/rest/router/ut/rest_router_ut.cpp).
use just_queue_it.Base.{
  ◌⊎◌, ◌++◌, map, length, All, arith, codes, ◌≡◌, refl, Option, some, none, [], ◌∷◌, List, Bytes,
}
use just_queue_it.Pattern.{
  chr, Piece, one, star, group, Regex, compile, match_pieces, compiled, malformed, unmodelled,
}
use just_queue_it.Pattern.Params.{full_regex, parameter_names}
use just_queue_it.Pattern.Token.{Token, lit, param, names, pieces, fill, IsSegment}
use just_queue_it.Pattern.Compile.{compile-full_regex}
use just_queue_it.Pattern.Match.{match_pieces_sound, match_pieces-fill}
use just_queue_it.Pattern.Language.{InLanguage, groups, match_pieces-decides}

abbrev regex_match : Regex → Bytes → Option (List Bytes)
regex_match malformed url = none
regex_match unmodelled url = none
regex_match (compiled ps) url = match_pieces ps url

matches_subtest :
    regex_match (compile (full_regex (codes "/test/{:id}/subtest"))) (codes "/test/135/subtest")
    ≡ some (codes "135" ∷ [])
unfolding match_pieces compile full_regex
matches_subtest = refl

finds_names : parameter_names 0 (codes "/a/{:id}/{:x_1}/{:1}") ≡ codes "id" ∷ codes "x_1" ∷ []
unfolding parameter_names
finds_names = refl

dotted : regex_match (compile (full_regex (codes "/a.b*"))) (codes "/axbbb") ≡ some []
unfolding match_pieces compile full_regex
dotted = refl

classes : regex_match (compile (full_regex (codes "/[a-c^]+\\d?/[^x-]"))) (codes "/ab^7/y") ≡ none
unfolding match_pieces compile full_regex
classes = refl

class_and_escapes :
    regex_match (compile (full_regex (codes "/[a-c^]+\\d?\\./{:id}/[^xy]"))) (codes "/ab^7./q/z")
    ≡ some (codes "q" ∷ [])
unfolding match_pieces compile full_regex
class_and_escapes = refl

escaped_anchor : regex_match (compile (full_regex (codes "/a\\"))) (codes "/a$") ≡ some []
unfolding match_pieces compile full_regex
escaped_anchor = refl

backwards : compile (full_regex (codes "/[z-a]")) ≡ malformed
unfolding compile full_regex
backwards = refl

two_quantifiers : compile (full_regex (codes "/a**")) ≡ unmodelled
unfolding compile full_regex
two_quantifiers = refl

-- `/t/{:id}/s`
abbrev sample : List Token
sample = map lit (codes "/t/") ++ param b'i' (codes "d") ∷ map lit (codes "/s")

abbrev values : List Bytes
values = codes "135" ∷ []

compile-full_regex_example : compile (full_regex (codes "/t/{:id}/s")) ≡ compiled (pieces sample)
compile-full_regex_example = compile-full_regex sample (ground arith)

match_pieces-fill_example : match_pieces (pieces sample) (codes "/t/135/s") ≡ some values
match_pieces-fill_example = match_pieces-fill sample values (ground arith) (ground arith) refl

sound_at_values :
    (codes "/t/135/s" ≡ fill sample values)
    × All IsSegment values
    × (length values ≡ length (names sample))
unfolding match_pieces
sound_at_values = match_pieces_sound sample (codes "/t/135/s") values refl

-- `/a*` and a parameter behind it.
abbrev starred : List Piece
starred = one (chr b'/') ∷ star (chr b'a') ∷ group ∷ []

match_pieces-decides_example :
    ((match_pieces starred (codes "/aab") ≡ none)
      × ((vs : List Bytes) → ¬ InLanguage starred (codes "/aab") vs))
    ⊎ ((vs : List Bytes) × (match_pieces starred (codes "/aab") ≡ some vs)
        × InLanguage starred (codes "/aab") vs
        × (length vs ≡ groups starred))
match_pieces-decides_example = match_pieces-decides starred (codes "/aab")
