-- ===== src/Command/Batch/Order.antt =====
-- Why the order of the nodes and of the tasks does not show in a batch's responses: sorting by
-- distinct keys (the `sort_by_key` of redisson-rs/src/command/command_batch_service.rs) forgets the
-- order that it began with.
use mathlib.Core.List.{Permᴰ, append_assoc}
use mathlib.Core.List.Permᴰ as Permᴰ
use redisson_rs.Base.{
  ℕ, suc, ◌≤◌, ◌≡◌, refl, ◌∙◌, ap, subst, false, All, List, [], ◌∷◌, ◌++◌, arith, leb, nat_beq,
  if◌then◌else◌,
}
use redisson_rs.Command.Batch.InMemory.{insert_by_key, sort_by_key}

-- A list for each element, one after the other.
abbrev pub flat_map {ℓ κ} : {A : Type ℓ} {B : Type κ} → (A → List B) → List A → List B
flat_map f [] = []
flat_map f (x ∷ xs) = f x ++ flat_map f xs

pub flat_map-Perm {ℓ κ} :
    {A : Type ℓ} {B : Type κ} (f : A → List B) {xs ys : List A}
    → Permᴰ xs ys
    → Permᴰ (flat_map f xs) (flat_map f ys)
flat_map-Perm f Permᴰ.nil = Permᴰ.nil
flat_map-Perm f (Permᴰ.cons {l₂ = l₂} e p) = rw e (Permᴰ.append_left _ (flat_map-Perm f p))
flat_map-Perm f (Permᴰ.swap {a = a} {b = b} {l = l} e e') =
    rw⁻¹ (e, e')
      (rw⁻¹ (append_assoc (f a) (f b) (flat_map f l), append_assoc (f b) (f a) (flat_map f l))
        (Permᴰ.append_right (flat_map f l) (Permᴰ.append_comm (f a) (f b))))
flat_map-Perm f (Permᴰ.trans p q) = Permᴰ.trans (flat_map-Perm f p) (flat_map-Perm f q)

module _ {A : Type 0} where
  pub insert_by_key-swap :
      (p q : ℕ × A) (ps : List (ℕ × A))
      → nat_beq p.0 q.0 ≡ false
      → insert_by_key p (insert_by_key q ps) ≡ insert_by_key q (insert_by_key p ps)
  unfolding insert_by_key
  insert_by_key-swap p q [] ne = ground arith
  insert_by_key-swap p q (r ∷ ps) ne = ground (arith, insert_by_key-swap p q ps ne)

  -- How often a key stands in a list.
  abbrev pub occurs : ℕ → List (ℕ × A) → ℕ
  occurs k [] = 0
  occurs k (p ∷ ps) = if nat_beq p.0 k then suc (occurs k ps) else occurs k ps

  abbrev pub IsDistinct : List (ℕ × A) → Type 0
  IsDistinct ps = (k : ℕ) → occurs k ps ≤ 1

  occurs-Perm : (k : ℕ) {ps qs : List (ℕ × A)} → Permᴰ ps qs → occurs k ps ≡ occurs k qs
  occurs-Perm k Permᴰ.nil = refl
  occurs-Perm k (Permᴰ.cons e p) = rw e (ground (arith, occurs-Perm k p))
  occurs-Perm k (Permᴰ.swap e e') = rw (e, e') (ground arith)
  occurs-Perm k (Permᴰ.trans p q) = occurs-Perm k p ∙ occurs-Perm k q

  pub sort_by_key-Perm :
      {ps qs : List (ℕ × A)} → Permᴰ ps qs → IsDistinct ps → sort_by_key ps ≡ sort_by_key qs
  unfolding sort_by_key
  sort_by_key-Perm Permᴰ.nil distinct = refl
  sort_by_key-Perm (Permᴰ.cons {a = a} e p) distinct =
      rw e (ap (insert_by_key _) (sort_by_key-Perm p (λ k. ground (arith, distinct k))))
  sort_by_key-Perm (Permᴰ.swap {a = a} {b = b} {l = l} e e') distinct =
      insert_by_key-swap a b (sort_by_key l) (ground (arith, distinct a.0)) ∙ rw (e, e') refl
  sort_by_key-Perm (Permᴰ.trans p q) distinct =
      sort_by_key-Perm p distinct ∙ sort_by_key-Perm q (λ k. rw⁻¹ (occurs-Perm k p) (distinct k))

  -- Keys that grow, from `n` on.
  abbrev pub IsAscending : ℕ → List (ℕ × A) → Type 0
  IsAscending n [] = Unit
  IsAscending n (p ∷ ps) = (n ≤ p.0) × IsAscending (suc p.0) ps

  insert_first :
      (p : ℕ × A) (ps : List (ℕ × A)) → IsAscending (suc p.0) ps → insert_by_key p ps ≡ p ∷ ps
  unfolding insert_by_key
  insert_first p [] up = refl
  insert_first p (q ∷ ps) up = ground arith

  pub sort_by_key-IsAscending : (n : ℕ) (ps : List (ℕ × A)) → IsAscending n ps → sort_by_key ps ≡ ps
  unfolding sort_by_key
  sort_by_key-IsAscending n [] up = refl
  sort_by_key-IsAscending n (p ∷ ps) up =
      ap (insert_by_key p) (sort_by_key-IsAscending (suc p.0) ps up.1) ∙ insert_first p ps up.1

  occurs-IsAscending :
      (n : ℕ) (ps : List (ℕ × A)) (k : ℕ)
      → IsAscending n ps
      → occurs k ps ≤ (if leb n k then 1 else 0)
  occurs-IsAscending n [] k up = ground arith
  occurs-IsAscending n (p ∷ ps) k up = ground (arith, occurs-IsAscending (suc p.0) ps k up.1, up.0)

  pub IsAscending-IsDistinct : (n : ℕ) (ps : List (ℕ × A)) → IsAscending n ps → IsDistinct ps
  IsAscending-IsDistinct n ps up k = ground (arith, occurs-IsAscending n ps k up)

pub All-Perm {ℓ κ} :
    {A : Type ℓ} (P : A → Type κ) {xs ys : List A} → Permᴰ xs ys → All P xs → All P ys
All-Perm P Permᴰ.nil h = h
All-Perm P (Permᴰ.cons e p) h = (subst P e h.0, All-Perm P p h.1)
All-Perm P (Permᴰ.swap e e') h = (subst P e' h.1.0, (subst P e h.0, h.1.1))
All-Perm P (Permᴰ.trans p q) h = All-Perm P q (All-Perm P p h)
