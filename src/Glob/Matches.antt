-- ===== src/Glob/Matches.antt =====
-- What a pattern of `*`, `?` and literal characters means, as a relation, and that `glob_inner`
-- (redisson-rs/src/pubsub/publish_subscribe_service.rs) decides it.
use redisson_rs.Base.{
  ℕ, ◌≡◌, refl, sym, ap, ◌∙◌, ◌≢◌, ◌↔◌, inl, inr, Bool, true, List, [], ◌∷◌, ◌++◌, arith, nat_beq,
  any, Bool-cases, All,
}
use redisson_rs.Glob.{glob_inner, suffixes}

-- A star stands for any run of characters, a question mark for one, and any other for itself.
pub data Matches : List ℕ → List ℕ → Type 0 where
  done : Matches [] []
  star :
      {c : ℕ} {p t : List ℕ} (run rest : List ℕ)
      → c ≡ b'*'
      → t ≡ run ++ rest
      → Matches p rest
      → Matches (c ∷ p) t
  one : {c d : ℕ} {p t : List ℕ} → c ≡ b'?' → Matches p t → Matches (c ∷ p) (d ∷ t)
  literal :
      {c d : ℕ} {p t : List ℕ} → c ≢ b'*' → c ≢ b'?' → d ≡ c → Matches p t → Matches (c ∷ p) (d ∷ t)

-- A test holds of some suffix exactly when the text splits before one.
any-suffixes :
    (f : List ℕ → Bool) (t : List ℕ)
    → any f (suffixes t) ≡ true
    → (run : List ℕ) × (rest : List ℕ) × (t ≡ run ++ rest) × (f rest ≡ true)
any-suffixes f [] h = ([], [], refl, ground arith)
any-suffixes f (c ∷ t) h = elim (Bool-cases (f (c ∷ t))) [
  | inl e ↦ ([], c ∷ t, refl, e)
  | inr e ↦
      let (run, rest, split, found) = any-suffixes f t (rw e at h) in
      (c ∷ run, rest, ap (◌∷◌ c) split, found)
]

suffixes-any_self :
    (f : List ℕ → Bool) (rest : List ℕ) → f rest ≡ true → any f (suffixes rest) ≡ true
suffixes-any_self f [] e = ground arith
suffixes-any_self f (c ∷ t) e = ground arith

suffixes-any :
    (f : List ℕ → Bool) (run rest : List ℕ) → f rest ≡ true → any f (suffixes (run ++ rest)) ≡ true
suffixes-any f [] rest e = suffixes-any_self f rest e
suffixes-any f (c ∷ run) rest e = ground (arith, suffixes-any f run rest e)

-- The head of a pattern is one of three kinds.
data Head (c : ℕ) : Type 0 where
  is_star : c ≡ b'*' → Head c
  is_any : c ≢ b'*' → c ≡ b'?' → Head c
  is_literal : c ≢ b'*' → c ≢ b'?' → Head c

Head-cases : (c : ℕ) → Head c
Head-cases c = elim (Bool-cases (nat_beq c b'*')) [
  | inl s ↦ is_star (ground arith)
  | inr ns ↦ elim (Bool-cases (nat_beq c b'?')) [
    | inl a ↦ is_any (ground arith) (ground arith)
    | inr na ↦ is_literal (ground arith) (ground arith)
  ]
]

glob_inner-star :
    {c : ℕ} (p t : List ℕ) → c ≡ b'*' → glob_inner (c ∷ p) t ≡ any (glob_inner p) (suffixes t)
unfolding glob_inner
glob_inner-star p t e = ground arith

-- The pattern is matched behind its head, so its tail is known to be sound.
module _ {c : ℕ} {p : List ℕ} (sound : (u : List ℕ) → glob_inner p u ≡ true → Matches p u) where
  glob_inner-Head : (t : List ℕ) → Head c → glob_inner (c ∷ p) t ≡ true → Matches (c ∷ p) t
  unfolding glob_inner
  glob_inner-Head t (is_star e) h =
      let (run, rest, split, found) =
        any-suffixes (glob_inner p) t (sym (glob_inner-star p t e) ∙ h) in
      star run rest e split (sound rest found)
  glob_inner-Head [] (is_any ns e) h = absurd (ground arith)
  glob_inner-Head (d ∷ t) (is_any ns e) h = one e (sound t (ground arith))
  glob_inner-Head [] (is_literal ns na) h = absurd (ground arith)
  glob_inner-Head (d ∷ t) (is_literal ns na) h =
      literal ns na (ground arith) (sound t (ground arith))

glob_inner_sound : (p t : List ℕ) → glob_inner p t ≡ true → Matches p t
unfolding glob_inner
glob_inner_sound [] [] h = done
glob_inner_sound [] (d ∷ t) h = cc
glob_inner_sound (c ∷ p) t h = glob_inner-Head (glob_inner_sound p) t (Head-cases c) h

glob_inner_complete : {p t : List ℕ} → Matches p t → glob_inner p t ≡ true
unfolding glob_inner
glob_inner_complete done = refl
glob_inner_complete {t} (star {p} run rest e split m) =
    glob_inner-star p t e ∙ rw split (suffixes-any (glob_inner p) run rest (glob_inner_complete m))
glob_inner_complete (one e m) = ground (arith, glob_inner_complete m)
glob_inner_complete (literal ns na e m) = ground (arith, glob_inner_complete m)

-- The matcher accepts exactly the texts that the pattern means: for every pattern and text it
-- answers true when the text matches, and only then.
pub glob_inner_iff : (p t : List ℕ) → (glob_inner p t ≡ true) ↔ Matches p t
glob_inner_iff p t = (glob_inner_sound p t, glob_inner_complete)

-- A pattern with no star and no question mark.
abbrev pub IsPlain : List ℕ → Type 0
IsPlain = All (λ c. (c ≢ b'*') × (c ≢ b'?'))

Matches-plain : {p t : List ℕ} → IsPlain p → Matches p t → t ≡ p
Matches-plain h done = refl
Matches-plain h (star run rest e split m) = absurd (h.0.0 e)
Matches-plain h (one e m) = absurd (h.0.1 e)
Matches-plain h (literal ns na e m) = cc (e, Matches-plain h.1 m)

plain-Matches : (p : List ℕ) → IsPlain p → Matches p p
plain-Matches [] h = done
plain-Matches (c ∷ p) h = literal h.0.0 h.0.1 refl (plain-Matches p h.1)

-- A pattern with no star and no question mark matches its own text and no other.
pub glob_inner-plain : (p t : List ℕ) → IsPlain p → (glob_inner p t ≡ true) ↔ (t ≡ p)
glob_inner-plain p t h = (
  λ e. Matches-plain h (glob_inner_sound p t e),
  λ e. rw e (glob_inner_complete (plain-Matches p h)),
)
