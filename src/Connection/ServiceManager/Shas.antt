-- ===== src/Connection/ServiceManager/Shas.antt =====
-- The two caches of hashes of redisson-rs/src/connection/service_manager.rs: what the look-ups and
-- `calc_sha` leave and return.
use redisson_rs.Base.{
  String, not, ◌&&◌, ◌||◌, none, some, List, [], ◌∷◌, ◌++◌, map, any, Option-cases, ◌==◌, nat_eq,
  string_eq, arith, ◌≡◌, refl, sym, ap, ◌∙◌, inl, inr,
}
use redisson_rs.Config.Client.{Server}
use redisson_rs.Connection.ServiceManager.{
  server_eq, ScriptCache, contains_sha, LruCache, IsLru, Statics, forget, calc_sha, calc_shas,
}

pub contains_sha-append :
    (c d : ScriptCache) (server : Server) (sha : String)
    → contains_sha (c ++ d) server sha ≡ (contains_sha c server sha || contains_sha d server sha)
contains_sha-append [] d server sha = refl
contains_sha-append (p ∷ c) d server sha = ground (arith, contains_sha-append c d server sha)

pub contains_sha-of :
    (s server : Server) (shas : List String) (sha : String)
    → contains_sha (map (λ x. (s, x)) shas) server sha ≡ (s == server && any (λ x. x == sha) shas)
contains_sha-of s server [] sha = ground arith
contains_sha-of s server (x ∷ shas) sha = ground (arith, contains_sha-of s server shas sha)

pub any-map :
    (sha1_hash : String → String) (scripts : List String) (sha : String)
    → any (λ x. x == sha) (map sha1_hash scripts) ≡ any (λ x. sha1_hash x == sha) scripts
any-map sha1_hash [] sha = refl
any-map sha1_hash (x ∷ scripts) sha = ground (arith, any-map sha1_hash scripts sha)

pub contains_sha-forget :
    (l : LruCache) (s server : Server) (c : ScriptCache) (sha : String)
    → contains_sha (forget l s c) server sha ≡ (not (s == server) && contains_sha c server sha)
contains_sha-forget l s server [] sha = ground arith
contains_sha-forget l s server (p ∷ c) sha = ground (
  arith,
  contains_sha-forget l s server c sha,
  server_eq.beq_iff s server,
  server_eq.beq_iff p.0 server,
  server_eq.beq_iff p.0 s,
)

module _ (l : LruCache) (sha1_hash : String → String) where
  -- The hashes that are remembered are right.
  abbrev pub IsRight : l.Cache → Type 0
  IsRight c = (k u : String) → l.peek k c ≡ some u → sha1_hash k ≡ u

  -- What `calc_sha` leaves and returns.
  pub record Hashed (script : String) (s : Statics l) (out : Statics l × String) : Type 0 where
    pub sha : out.1 ≡ sha1_hash script
    pub right : IsRight out.0.shas
    pub scripts_kept : out.0.script_shas ≡ s.script_shas
    pub info_kept : out.0.slave_info ≡ s.slave_info

  module _ (lru : IsLru l) where
    calc_sha-hit :
        (script sha : String) (s : Statics l)
        → (l.get script s.shas).1 ≡ some sha
        → calc_sha l sha1_hash script s ≡ (record s { shas = (l.get script s.shas).0 }, sha)
    unfolding calc_sha
    calc_sha-hit script sha s found = rw (found, calc_sha) refl

    calc_sha-miss :
        (script : String) (s : Statics l)
        → (l.get script s.shas).1 ≡ none
        → calc_sha l sha1_hash script s ≡ (
          record s { shas = l.put script (sha1_hash script) (l.get script s.shas).0 },
          sha1_hash script,
        )
    unfolding calc_sha
    calc_sha-miss script s missing = rw (missing, calc_sha) refl

    put-IsRight :
        (script : String) (c : l.Cache)
        → IsRight c
        → IsRight (l.put script (sha1_hash script) (l.get script c).0)
    put-IsRight script c right k u there =
        elim (lru.peek-put script k (sha1_hash script) u (l.get script c).0 there) [
          | inl (same, is) ↦ ap sha1_hash (sym same) ∙ is
          | inr old ↦ right k u (sym (lru.peek-get script k c) ∙ old)
        ]

    pub calc_sha-Hashed :
        (script : String) (s : Statics l)
        → IsRight s.shas
        → Hashed script s (calc_sha l sha1_hash script s)
    calc_sha-Hashed script s right = elim (Option-cases (l.get script s.shas).1) [
      | inl missing ↦ rw (calc_sha-miss script s missing) (record {
        sha = refl;
        right = put-IsRight script s.shas right;
        scripts_kept = refl;
        info_kept = refl;
      })
      | inr (sha, found) ↦ rw (calc_sha-hit script sha s found) (record {
        sha = sym (right script sha (sym (lru.get_peek script s.shas) ∙ found));
        right = λ k u there. right k u (sym (lru.peek-get script k s.shas) ∙ there);
        scripts_kept = refl;
        info_kept = refl;
      })
    ]

    pub record HashedAll (scripts : List String) (s : Statics l) (out : Statics l × List String)
        : Type 0 where
      pub shas : out.1 ≡ map sha1_hash scripts
      pub right : IsRight out.0.shas
      pub scripts_kept : out.0.script_shas ≡ s.script_shas
      pub info_kept : out.0.slave_info ≡ s.slave_info

    pub calc_shas-Hashed :
        (scripts : List String) (s : Statics l)
        → IsRight s.shas
        → HashedAll scripts s (calc_shas l sha1_hash scripts s)
    unfolding calc_shas
    calc_shas-Hashed [] s right = record {
      shas = refl;
      right = right;
      scripts_kept = refl;
      info_kept = refl;
    }
    calc_shas-Hashed (script ∷ scripts) s right =
        let one = calc_sha-Hashed script s right in
        let rest = calc_shas-Hashed scripts (calc_sha l sha1_hash script s).0 one.right in
        record {
          shas = rw one.sha (ap (◌∷◌ (sha1_hash script)) rest.shas);
          right = rest.right;
          scripts_kept = rest.scripts_kept ∙ one.scripts_kept;
          info_kept = rest.info_kept ∙ one.info_kept;
        }
