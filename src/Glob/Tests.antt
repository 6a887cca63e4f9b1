-- ===== src/Glob/Tests.antt =====
-- Runs of the matcher, and its theorems at concrete texts.
use redisson_rs.Base.{◌≡◌, refl, ◌↔◌, true, false}
use redisson_rs.Glob.{chars, glob_inner, redis_glob_matches}
use redisson_rs.Glob.Matches.{Matches, glob_inner_iff}

star_backtracks : redis_glob_matches "news.*.t?" "news.a.b.ty" ≡ true
unfolding redis_glob_matches
star_backtracks = refl

question_needs_one : redis_glob_matches "news?" "news" ≡ false
unfolding redis_glob_matches
question_needs_one = refl

class_is_literal : redis_glob_matches "h[ae]llo" "hello" ≡ false
unfolding redis_glob_matches
class_is_literal = refl

glob_inner_iff_example :
    (glob_inner (chars "a*") (chars "abc") ≡ true) ↔ Matches (chars "a*") (chars "abc")
glob_inner_iff_example = glob_inner_iff (chars "a*") (chars "abc")
