-- ===== src/Net/Ownership.antt =====
-- Which object holds which descriptor, where many objects hold them: a descriptor that one holds
-- is open, no two hold the same, and none is open that no object holds.
use bit_magic_zi_modem.Base.{
  ℕ, ◌≡◌, refl, sym, ap, ◌∙◌, ◌⊎◌, inl, inr, Bool, true, false, Option, none, some, ◌==◌, ==_iff,
  if◌then◌else◌, arith, Bool-cases,
}
use bit_magic_zi_modem.Net.Os.{Os, DescriptorLaws}

abbrev pub holds : Option ℕ → ℕ → Bool
holds none j = false
holds (some h) j = j == h

pub holds_iff : (o : Option ℕ) (h : ℕ) → holds o h ≡ true → o ≡ some h
holds_iff none h e = cc
holds_iff (some k) h e = ap some (sym ((==_iff h k).0 e))

pub holds_self : (o : Option ℕ) (h : ℕ) → o ≡ some h → holds o h ≡ true
holds_self none h e = cc
holds_self (some k) h e = ground (arith, e)

module _ (os : Os) (laws : DescriptorLaws os) where
  open laws use {is_open}

  -- An object exchanges its descriptor for another, or for none: the old one is closed, the new one
  -- is open, and was closed before unless it is the old one; all others are as they were.
  pub record Takes (w : os.World) (o : Option ℕ) (w' : os.World) (o' : Option ℕ) : Type 0 where
    pub opens :
        (j : ℕ)
        → is_open w' j ≡ (if holds o' j then true else if holds o j then false else is_open w j)
    pub fresh : (h : ℕ) → o' ≡ some h → (o ≡ some h) ⊎ (is_open w h ≡ false)

  pub record IsSeparate {A : Type 0} (own : A → Option ℕ) (w : os.World) : Type 0 where
    pub alive : (a : A) (h : ℕ) → own a ≡ some h → is_open w h ≡ true
    pub apart : (a b : A) (h : ℕ) → own a ≡ some h → own b ≡ some h → a ≡ b
    pub held : (h : ℕ) → is_open w h ≡ true → (a : A) × (own a ≡ some h)

  -- A call that opens and closes nothing, and after which each object holds what it held.
  pub keep-IsSeparate :
      {A : Type 0} (own own' : A → Option ℕ) (w w' : os.World)
      → ((a : A) → own' a ≡ own a)
      → ((j : ℕ) → is_open w' j ≡ is_open w j)
      → IsSeparate own w
      → IsSeparate own' w'
  keep-IsSeparate own own' w w' k o v = record {
    alive = λ a h e. o h ∙ v.alive a h (sym (k a) ∙ e);
    apart = λ a b h e f. v.apart a b h (sym (k a) ∙ e) (sym (k b) ∙ f);
    held = λ h e. let r = v.held h (sym (o h) ∙ e) in (r.0, k r.0 ∙ r.1);
  }

  -- One object exchanges its descriptor, and the others hold what they held.
  module _ {A : Type 0} (own own' : A → Option ℕ) (w w' : os.World) (a : A)
      (others : (b : A) → (b ≡ a) ⊎ (own' b ≡ own b)) (t : Takes w (own a) w' (own' a))
      (v : IsSeparate own w) where
    held_alive : (h : ℕ) → own' a ≡ some h → is_open w' h ≡ true
    held_alive h e = t.opens h ∙ rw (holds_self (own' a) h e)

    taken_apart : (b : A) (h : ℕ) → own' a ≡ some h → own b ≡ some h → b ≡ a
    taken_apart b h e f = elim (t.fresh h e) [
      | inl old ↦ v.apart b a h f old
      | inr new ↦ absurd (not_both (sym (v.alive b h f) ∙ new))
    ]
      where
        not_both : true ≡ false → ⊥
        not_both e = cc

    take-alive : (b : A) (h : ℕ) → own' b ≡ some h → is_open w' h ≡ true
    take-alive b h e = elim (others b) [
      | inl p ↦ held_alive h (ap own' (sym p) ∙ e)
      | inr q ↦ elim (Bool-cases (holds (own' a) h)) [
        | inl x ↦ held_alive h (holds_iff (own' a) h x)
        | inr x ↦ elim (Bool-cases (holds (own a) h)) [
          | inl y ↦
              held_alive h (ap own' (sym (v.apart b a h (sym q ∙ e) (holds_iff (own a) h y))) ∙ e)
          | inr y ↦ t.opens h ∙ rw (x, y) (v.alive b h (sym q ∙ e))
        ]
      ]
    ]

    take-held : (h : ℕ) → is_open w' h ≡ true → (b : A) × (own' b ≡ some h)
    take-held h e = elim (Bool-cases (holds (own' a) h)) [
      | inl x ↦ (a, holds_iff (own' a) h x)
      | inr x ↦ elim (Bool-cases (holds (own a) h)) [
        | inl y ↦ absurd (closed (sym (t.opens h ∙ rw (x, y) refl) ∙ e))
        | inr y ↦
            let r = v.held h (sym (t.opens h ∙ rw (x, y) refl) ∙ e) in
            (
              r.0,
              elim (others r.0) [
                | inl p ↦ absurd (closed (sym y ∙ holds_self (own a) h (ap own (sym p) ∙ r.1)))
                | inr q ↦ q ∙ r.1
              ],
            )
      ]
    ]
      where
        closed : false ≡ true → ⊥
        closed e = cc

    pub take-IsSeparate : IsSeparate own' w'
    take-IsSeparate = record {
      alive = take-alive;
      apart = λ b c h e f. elim (others b) [
        | inl p ↦ elim (others c) [
          | inl q ↦ p ∙ sym q
          | inr q ↦ p ∙ sym (taken_apart c h (ap own' (sym p) ∙ e) (sym q ∙ f))
        ]
        | inr p ↦ elim (others c) [
          | inl q ↦ taken_apart b h (ap own' (sym q) ∙ f) (sym p ∙ e) ∙ sym q
          | inr q ↦ v.apart b c h (sym p ∙ e) (sym q ∙ f)
        ]
      ];
      held = take-held;
    }
