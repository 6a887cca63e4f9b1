-- ===== src/Glob.antt =====
-- `redis_glob_matches` and `glob_inner` of redisson-rs/src/pubsub/publish_subscribe_service.rs.
-- The slices are read from an index on only, so an index stands for the suffix that begins there;
-- characters are their code points.
pub mod Matches
mod Tests
use Prim.Native.Char.{code}
use redisson_rs.Base.{
  ℕ, ◌&&◌, Bool, true, false, String, List, [], ◌∷◌, is_empty, any, nat_beq, if◌then◌else◌,
}

-- `str::chars` collected, as code points.
abbrev pub chars : String → List ℕ
chars String.[] = []
chars (String.◌∷◌ c s) = code c ∷ chars s

-- The suffixes that begin at `ti..=t.len()`.
abbrev pub suffixes : List ℕ → List (List ℕ)
suffixes [] = [] ∷ []
suffixes (c ∷ t) = (c ∷ t) ∷ suffixes t

-- `ti < t.len() && t[ti] == c && rest(ti + 1)`, the test left out for `?`.
abbrev pub step_char : (ℕ → Bool) → (List ℕ → Bool) → List ℕ → Bool
step_char test rest [] = false
step_char test rest (d ∷ t) = test d && rest t

unfoldable pub glob_inner : List ℕ → List ℕ → Bool
glob_inner [] t = is_empty t
glob_inner (c ∷ p) t =
    let rest = glob_inner p in
    if nat_beq c b'*'
    then any rest (suffixes t)
    else if nat_beq c b'?'
    then step_char (λ _. true) rest t
    else step_char (λ d. nat_beq d c) rest t

unfoldable pub redis_glob_matches : String → String → Bool
unfolding glob_inner
redis_glob_matches pattern text = glob_inner (chars pattern) (chars text)
